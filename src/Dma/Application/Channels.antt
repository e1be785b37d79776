-- ===== src/Dma/Application/Channels.antt =====
-- The channels of `main` in linux-user-space-dma/Software/User/dma-proxy-test.c: what it opens, maps and
-- starts, and what of that it undoes.
use software_prototypes.Base.{
  ℕ, ◌≡◌, ◌⊎◌, Bool, true, false, not, ◌&&◌, List, [], ◌∷◌, ◌==◌, ◌+◌, ◌*◌, if◌then◌else◌, arith,
}
use software_prototypes.Machine.{success, failure, Env, World, ok}
use software_prototypes.Dma.Shared.{channel_buffer_size}
use software_prototypes.Dma.Application.{
  Side, tx, rx, SystemCall, open_device, mmap, munmap, create_thread, join_thread, close_device,
  Settings, map_failure, int_above, read_arguments, open_channels, create_threads, setup_threads,
  join_rx, clean_tx, clean_rx, transfer, main,
}

abbrev pub same_side : Side → Side → Bool
same_side tx tx = true
same_side tx rx = false
same_side rx tx = false
same_side rx rx = true

abbrev one_if : Bool → ℕ
one_if b = if b then 1 else 0

-- The file descriptors of a side that were opened, its threads that run, and the bytes that are mapped:
-- each as what was made and what was undone.
module _ (e : Env SystemCall) (side : Side) where
  unfoldable pub opened : List SystemCall → ℕ
  opened [] = 0
  opened (open_device s c ∷ l) =
      one_if (same_side s side && int_above (e.value l (open_device s c)) 0) + opened l
  opened (c ∷ l) = opened l

  unfoldable pub mapped : List SystemCall → ℕ
  mapped [] = 0
  mapped (mmap s c n ∷ l) =
      (if same_side s side && not (e.value l (mmap s c n) == map_failure) then n else 0) + mapped l
  mapped (c ∷ l) = mapped l

module _ (side : Side) where
  unfoldable pub closed : List SystemCall → ℕ
  closed [] = 0
  closed (close_device s c ∷ l) = one_if (same_side s side) + closed l
  closed (c ∷ l) = closed l

  unfoldable pub unmapped : List SystemCall → ℕ
  unmapped [] = 0
  unmapped (munmap s c n ∷ l) = (if same_side s side then n else 0) + unmapped l
  unmapped (c ∷ l) = unmapped l

  unfoldable pub created : List SystemCall → ℕ
  created [] = 0
  created (create_thread s c ∷ l) = one_if (same_side s side) + created l
  created (c ∷ l) = created l

  unfoldable pub joined : List SystemCall → ℕ
  joined [] = 0
  joined (join_thread s c ∷ l) = one_if (same_side s side) + joined l
  joined (c ∷ l) = joined l

-- Memory of a side is unmapped, and its descriptor closed, only after all of its threads were joined.
unfoldable pub quiet : List SystemCall → Bool
quiet [] = true
quiet (munmap s c n ∷ l) = created s l == joined s l && quiet l
quiet (close_device s c ∷ l) = created s l == joined s l && quiet l
quiet (c ∷ l) = quiet l

abbrev pub start : Settings → World SystemCall Settings
start s = record { log = []; globals = s }

module _ (e : Env SystemCall) (settings : Settings) where
  -- Where `main` fails, no thread was created. Where it succeeds, on each side one channel was opened
  -- and it was closed, one thread was created and it was joined, and nothing was unmapped or closed
  -- before its thread was joined; but of the 32 buffers that are mapped to receive, only one is
  -- unmapped.
  pub main_channels :
      (argc : ℕ)
      → let (r, w) = main argc e (start settings) in
        ((r ≡ ok failure) × (created tx w.log ≡ 0) × (created rx w.log ≡ 0))
        ⊎ ((r ≡ ok success)
            × (quiet w.log ≡ true)
            × (opened e tx w.log ≡ 1)
            × (closed tx w.log ≡ 1)
            × (opened e rx w.log ≡ 1)
            × (closed rx w.log ≡ 1)
            × (created tx w.log ≡ 1)
            × (joined tx w.log ≡ 1)
            × (created rx w.log ≡ 1)
            × (joined rx w.log ≡ 1)
            × (mapped e tx w.log ≡ unmapped tx w.log)
            × (mapped e rx w.log ≡ 32 * unmapped rx w.log)
            × (unmapped rx w.log ≡ channel_buffer_size))
  unfolding main read_arguments open_channels transfer setup_threads create_threads join_rx clean_tx
      clean_rx opened mapped closed unmapped created joined quiet
  main_channels argc = ground arith
