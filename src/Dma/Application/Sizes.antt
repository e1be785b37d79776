-- ===== src/Dma/Application/Sizes.antt =====
-- The size of the transfers that `main` of linux-user-space-dma/Software/User/dma-proxy-test.c asks for.
use software_prototypes.Base.{ℕ, ◌≡◌, ◌↔◌, [], ◌∷◌, ◌*◌, ◌%◌, ◌^◌, ◌<◌, ◌≤◌, arith}
use software_prototypes.Machine.{success, Env, ok}
use software_prototypes.Dma.Shared.{buffer_size}
use software_prototypes.Dma.Application.{
  SystemCall, atoi, Settings, read_arguments, open_channels, create_threads, setup_threads, join_rx,
  clean_tx, clean_rx, transfer, main,
}
use software_prototypes.Dma.Application.Channels.{start}

module _ (e : Env SystemCall) (settings : Settings) where
  -- The second argument, in KB, as the program reads it.
  abbrev pub kb : ℕ
  kb = e.value (atoi 1 ∷ []) (atoi 2)

  -- Where `main` succeeds, the length of its transfers is within the buffers exactly when the argument in
  -- bytes is not negative as an `int`; and a length in that range is the one asked for.
  pub main_size_iff :
      (argc : ℕ)
      → let (r, w) = main argc e (start settings) in
        r ≡ ok success
        → ((w.globals.test_size ≤ buffer_size) ↔ (kb * 1024 % 2 ^ 32 < 2 ^ 31))
          × (kb * 1024 ≤ buffer_size → w.globals.test_size ≡ kb * 1024)
  unfolding main read_arguments open_channels transfer setup_threads create_threads join_rx clean_tx
      clean_rx
  main_size_iff argc h = ground (arith, h)
