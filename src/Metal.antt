-- ===== src/Metal.antt =====
-- The calls of libmetal that the Linux applications make, zynqmp-ipi-messaging/Software/testapp.c and
-- plm-r5-a72-ipi/a72-linux/libmetal-linux-ipi-demo.c, and what a log of them leaves open.
use software_prototypes.Base.{ℕ, suc, List, [], ◌∷◌}
use software_prototypes.Machine.{success, failure, Env}

-- The device of the IPI registers, and the one of the message buffers.
pub data Device : Type 0 where
  ipi ipi_buf : Device

pub data MetalCall : Type 0 where
  metal_init set_log_level metal_finish : MetalCall
  device_open io_region device_close : Device → MetalCall
  irq_register irq_unregister irq_enable irq_disable : MetalCall
  -- an access of a device's region at this offset
  read32 : Device → (offset : ℕ) → MetalCall
  write32 : Device → (offset word : ℕ) → MetalCall

-- The opens of a device that succeeded, and its closes.
unfoldable pub opens : Env MetalCall → Device → List MetalCall → ℕ
opens e d [] = 0
opens e ipi (device_open ipi ∷ l) = elim (e.status l (device_open ipi)) [
  | success ↦ suc (opens e ipi l)
  | failure ↦ opens e ipi l
]
opens e ipi_buf (device_open ipi_buf ∷ l) = elim (e.status l (device_open ipi_buf)) [
  | success ↦ suc (opens e ipi_buf l)
  | failure ↦ opens e ipi_buf l
]
opens e d (c ∷ l) = opens e d l

unfoldable pub closes : Device → List MetalCall → ℕ
closes d [] = 0
closes ipi (device_close ipi ∷ l) = suc (closes ipi l)
closes ipi_buf (device_close ipi_buf ∷ l) = suc (closes ipi_buf l)
closes d (c ∷ l) = closes d l

-- The initialisations of the library that succeeded, and its ends.
unfoldable pub inits : Env MetalCall → List MetalCall → ℕ
inits e [] = 0
inits e (metal_init ∷ l) = elim (e.status l metal_init) [
  | success ↦ suc (inits e l)
  | failure ↦ inits e l
]
inits e (c ∷ l) = inits e l

unfoldable pub finishes : List MetalCall → ℕ
finishes [] = 0
finishes (metal_finish ∷ l) = suc (finishes l)
finishes (c ∷ l) = finishes l
