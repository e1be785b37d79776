-- ===== src/Messaging/App.antt =====
-- `main` of zynqmp-ipi-messaging/Software/testapp.c: its set-up through libmetal, with the labels that
-- its errors go to.
pub mod Cleanup
use software_prototypes.Base.{
  ℕ, Bool, true, false, List, [], ◌∷◌, ◌==◌, ◌+◌, ◌*◌, ◌^◌, if◌then◌else◌,
}
use software_prototypes.Machine.{
  Status, success, failure, Act, pure, hung, call, ask, tell, ◌>>=◌, ◌>>◌,
}
use software_prototypes.Metal.{
  Device, ipi, ipi_buf, MetalCall, metal_init, set_log_level, metal_finish, device_open, io_region,
  device_close, irq_register, irq_enable, write32,
}

-- What `main` returns: the code of a call, or -ENODEV.
pub data Code : Type 0 where
  callee minus_enodev : Code

abbrev pub App : Type 0 → Type 0
App A = Act MetalCall (Unit {0}) A

abbrev pub remote_ipi_mask : ℕ
remote_ipi_mask = 0x0F0F0301

abbrev pub ipi_pmu_mask : ℕ
ipi_pmu_mask = 0x10000

-- IPI_IER_OFFSET, IPI_CH10TOPMU_REQ_OFFSET and IPI_TRIG_OFFSET
abbrev pub ipi_ier_offset : ℕ
ipi_ier_offset = 0x18

abbrev pub ipi_ch10topmu_req_offset : ℕ
ipi_ch10topmu_req_offset = 0xDC0

abbrev pub ipi_trig_offset : ℕ
ipi_trig_offset = 0

unfoldable pub err2 : Code → App Code
err2 ret = do tell metal_finish; pure ret

unfoldable pub err3 : Code → App Code
unfolding err2
err3 ret = do tell (device_close ipi_buf); err2 ret

unfoldable pub err4 : Code → App Code
unfolding err3
err4 ret = do tell (device_close ipi); err3 ret

-- From the registration of the handler on: it announces the processor, and does not return.
unfoldable pub serve_interrupts : App Code
serve_interrupts = do
  tell irq_register
  tell irq_enable
  tell (write32 ipi ipi_ier_offset remote_ipi_mask)
  tell (write32 ipi_buf ipi_ch10topmu_req_offset (0x1E * 2 ^ 16))
  tell (write32 ipi ipi_trig_offset ipi_pmu_mask)
  hung

unfoldable pub open_ipi : App Code
unfolding err3 err4 serve_interrupts
open_ipi = do
  s ← call (device_open ipi)
  elim s [
    | failure ↦ err3 callee
    | success ↦ do
      region ← ask (io_region ipi)
      if region == 0 then err4 minus_enodev else serve_interrupts
  ]

unfoldable pub open_buffer : App Code
unfolding err2 err3 open_ipi
open_buffer = do
  s ← call (device_open ipi_buf)
  elim s [
    | failure ↦ err2 callee
    | success ↦ do
      region ← ask (io_region ipi_buf)
      if region == 0 then err3 minus_enodev else open_ipi
  ]

unfoldable pub main : App Code
unfolding open_buffer
main = do
  s ← call metal_init
  elim s [ failure ↦ pure callee | success ↦ do tell set_log_level; open_buffer ]
