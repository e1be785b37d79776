-- ===== src/Messaging/App/Cleanup.antt =====
-- What `main` of zynqmp-ipi-messaging/Software/testapp.c leaves behind on each of its ways out.
use software_prototypes.Base.{◌≡◌, ◌≢◌, ◌⊎◌, [], arith}
use software_prototypes.Machine.{Env, World, hang}
use software_prototypes.Metal.{ipi, ipi_buf, MetalCall, opens, closes, inits, finishes}
use software_prototypes.Messaging.App.{main}

abbrev pub start : World MetalCall (Unit {0})
start = record { log = []; globals = tt }

module _ (e : Env MetalCall) where
  -- Whatever the calls answer: where `main` returns, each device was closed as often as it was opened
  -- with success, and the library was ended exactly if it was initialised; where it goes on to
  -- serve interrupts, both devices are open and the library was not ended.
  pub main_cleanup :
      let (r, w) = main e start in
      let open_now =
        (opens e ipi w.log ≡ 1)
        × (opens e ipi_buf w.log ≡ 1)
        × (closes ipi w.log ≡ 0)
        × (closes ipi_buf w.log ≡ 0)
        × (finishes w.log ≡ 0) in
      let all_closed =
        (opens e ipi w.log ≡ closes ipi w.log)
        × (opens e ipi_buf w.log ≡ closes ipi_buf w.log)
        × (inits e w.log ≡ finishes w.log) in
      ((r ≡ hang) × open_now) ⊎ ((r ≢ hang) × all_closed)
  unfolding main opens closes inits finishes
  main_cleanup = ground arith
