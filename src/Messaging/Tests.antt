-- ===== src/Messaging/Tests.antt =====
-- The five processors of zynqmp-ipi-messaging/Software announce themselves, with ticks between.
use software_prototypes.Base.{ℕ, ◌≡◌, refl, List, [], ◌∷◌, ◌^◌, arith, true}
use software_prototypes.Machine.{Env, World}
use software_prototypes.Messaging.Firmware.{
  Firmware, FirmwareCall, all_init, Event, ipi, tick, handle,
}
use software_prototypes.Messaging.Firmware.Rounds.{cut_round}
use software_prototypes.Messaging.Remote.Echo.{is_source, pmu_mask}
use software_prototypes.Messaging.System.{processors, processors_give_up}
use software_prototypes.Base.{◌≢◌, ◌⊎◌}
use software_prototypes.Machine.{success, hang}
use software_prototypes.Metal
use software_prototypes.Metal.{MetalCall, opens, closes, inits, finishes}
use software_prototypes.Messaging.App.{main}
use software_prototypes.Messaging.App.Cleanup.{start, main_cleanup}

abbrev targets : List ℕ
targets = 0x1 ∷ 0x10000 ∷ []

targets-is_source : is_source pmu_mask pmu_mask targets ≡ true
unfolding is_source
targets-is_source = refl

abbrev events : List Event
events = ipi 0x200 ∷ tick ∷ ipi (2 ^ 27) ∷ ipi 0x100 ∷ ipi 0x100 ∷ ipi (2 ^ 24) ∷ ipi (2 ^ 25) ∷ []

abbrev late : World FirmwareCall Firmware
late = record {
  log = [];
  globals = record { cnt = 2 ^ 16; channels = record { mask = 0x100; init = true } ∷ [] };
}

late_init : all_init late.globals.channels ≡ true
unfolding all_init
late_init = refl

processors_give_up_example :
    let w' = (handle tick (processors 0x100 0x200 targets) late).1 in
    (w'.log ≡ cut_round (2 ^ 16) late.globals.channels []) × (w'.globals.cnt ≡ 65537)
processors_give_up_example =
    processors_give_up 0x100 0x200 targets targets-is_source late late_init (omega arith)

-- No region can be mapped: `main` returns -ENODEV.
abbrev unmapped : Env MetalCall
unmapped = record { status = λ _ _. success; value = λ _ _. 0; words = λ _ _. [] }

main_cleanup_example :
    let e = unmapped in
    let (r, w) = main e start in
    let open_now =
      (opens e Metal.ipi w.log ≡ 1)
      × (opens e Metal.ipi_buf w.log ≡ 1)
      × (closes Metal.ipi w.log ≡ 0)
      × (closes Metal.ipi_buf w.log ≡ 0)
      × (finishes w.log ≡ 0) in
    let all_closed =
      (opens e Metal.ipi w.log ≡ closes Metal.ipi w.log)
      × (opens e Metal.ipi_buf w.log ≡ closes Metal.ipi_buf w.log)
      × (inits e w.log ≡ finishes w.log) in
    ((r ≡ hang) × open_now) ⊎ ((r ≢ hang) × all_closed)
main_cleanup_example = main_cleanup unmapped
