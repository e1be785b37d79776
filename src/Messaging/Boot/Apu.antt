-- ===== src/Messaging/Boot/Apu.antt =====
-- The start of the APU against the whole `main` of zynqmp-ipi-messaging/Software/testapp.c.
use software_prototypes.Base.{◌≡◌, List, [], ◌∷◌, arith}
use software_prototypes.Machine.{Env, hang}
use software_prototypes.Metal.{
  MetalCall, ipi, ipi_buf, metal_init, set_log_level, device_open, io_region,
}
use software_prototypes.Messaging.App.{main}
use software_prototypes.Messaging.App.Cleanup.{start}
use software_prototypes.Messaging.Boot.{BootCall, metal, apu_main}

boot_calls : List MetalCall → List BootCall
boot_calls [] = []
boot_calls (c ∷ l) = metal c ∷ boot_calls l

newest_first : List BootCall → List BootCall → List BootCall
newest_first [] l = l
newest_first (c ∷ cs) l = newest_first cs (c ∷ l)

-- Where `main` goes on to serve interrupts, its calls end with those of `apu_main`.
apu_main-main :
    (e : Env MetalCall)
    → (main e start).0 ≡ hang
    → boot_calls (main e start).1.log
      ≡ newest_first apu_main (
          boot_calls (
            io_region ipi
            ∷ device_open ipi
            ∷ io_region ipi_buf
            ∷ device_open ipi_buf
            ∷ set_log_level
            ∷ metal_init
            ∷ []))
unfolding main newest_first apu_main boot_calls
apu_main-main e h = ground (arith, h)
