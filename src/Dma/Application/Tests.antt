-- ===== src/Dma/Application/Tests.antt =====
-- `main` of the test application asked for 5 transfers of 64 KB, on which every call succeeds.
use software_prototypes.Base.{◌≡◌, ◌⊎◌, ◌↔◌, refl, true, [], ◌*◌, ◌%◌, ◌^◌, ◌<◌, ◌≤◌}
use software_prototypes.Machine.{success, failure, Env, ok}
use software_prototypes.Dma.Shared.{buffer_size, channel_buffer_size}
use software_prototypes.Dma.Application.{
  tx, rx, SystemCall, Settings, read_arguments, open_channels, create_threads, setup_threads,
  join_rx, clean_tx, clean_rx, transfer, main,
}
use software_prototypes.Dma.Application.Channels.{
  opened, closed, mapped, unmapped, created, joined, quiet, start, main_channels,
}
use software_prototypes.Dma.Application.Sizes.{kb, main_size_iff}

abbrev env : Env SystemCall
env = record {
  status = λ _ _. success;
  value = λ _ c. elim c [ SystemCall.atoi i ↦ 64 | _ ↦ 5 ];
  words = λ _ _. [];
}

abbrev settings : Settings
settings = record { num_transfers = 0; test_size = 0; verify = 0 }

main_channels_example :
    let (r, w) = main 3 env (start settings) in
    ((r ≡ ok failure) × (created tx w.log ≡ 0) × (created rx w.log ≡ 0))
    ⊎ ((r ≡ ok success)
        × (quiet w.log ≡ true)
        × (opened env tx w.log ≡ 1)
        × (closed tx w.log ≡ 1)
        × (opened env rx w.log ≡ 1)
        × (closed rx w.log ≡ 1)
        × (created tx w.log ≡ 1)
        × (joined tx w.log ≡ 1)
        × (created rx w.log ≡ 1)
        × (joined rx w.log ≡ 1)
        × (mapped env tx w.log ≡ unmapped tx w.log)
        × (mapped env rx w.log ≡ 32 * unmapped rx w.log)
        × (unmapped rx w.log ≡ channel_buffer_size))
main_channels_example = main_channels env settings 3

main_succeeds : (main 3 env (start settings)).0 ≡ ok success
unfolding main read_arguments open_channels transfer setup_threads create_threads join_rx clean_tx
    clean_rx
main_succeeds = refl

main_size_iff_example :
    let w = (main 3 env (start settings)).1 in
    ((w.globals.test_size ≤ buffer_size) ↔ (kb env settings * 1024 % 2 ^ 32 < 2 ^ 31))
    × (kb env settings * 1024 ≤ buffer_size → w.globals.test_size ≡ kb env settings * 1024)
main_size_iff_example = main_size_iff env settings 3 main_succeeds
