-- ===== src/Plm/A72.antt =====
-- The Linux application plm-r5-a72-ipi/a72-linux/libmetal-linux-ipi-demo.c, on the A72.
use Prim.Native.Nat.{bit_and}
pub mod Devices
use software_prototypes.Base.{
  ℕ, suc, zero, Bool, true, false, not, List, [], ◌∷◌, ◌==◌, ◌+◌, ◌*◌, if◌then◌else◌,
}
use software_prototypes.Word.{add32}
use software_prototypes.Machine.{
  Status, success, failure, Act, pure, hung, call, ask, tell, gets, modify, when, ◌>>=◌, ◌>>◌,
}
use software_prototypes.Metal.{
  Device, ipi, ipi_buf, MetalCall, metal_init, metal_finish, device_open, io_region, device_close,
  irq_register, irq_unregister, irq_enable, irq_disable, read32, write32,
}

-- Which of the global pointers are not NULL.
pub record Pointers : Type 0 where
  pub ipi_dev : Bool
  pub ipi_io : Bool
  pub ipi_buf_dev : Bool
  pub ipi_io_buffer : Bool

abbrev pub Linux : Type 0 → Type 0
Linux A = Act MetalCall Pointers A

-- What `init_ipi` and `main` return: 0, the code of a call, or -ENODEV.
pub data Code : Type 0 where
  zero_code callee minus_enodev : Code

-- The mask of the loader, the offsets of the registers and of the message buffers.
abbrev pub remote_ipi_mask : ℕ
remote_ipi_mask = 2

abbrev pub ipi_trig_offset : ℕ
ipi_trig_offset = 0

abbrev pub ipi_obs_offset : ℕ
ipi_obs_offset = 4

abbrev pub ipi_isr_offset : ℕ
ipi_isr_offset = 0x10

abbrev pub ipi_ier_offset : ℕ
ipi_ier_offset = 0x18

abbrev pub ipi_idr_offset : ℕ
ipi_idr_offset = 0x1C

abbrev pub plm_to_ipi3_req_offset : ℕ
plm_to_ipi3_req_offset = 0x340

abbrev pub ipi3_to_plm_req_offset : ℕ
ipi3_to_plm_req_offset = 0xA40

abbrev pub plm_module_id : ℕ
plm_module_id = 0xD

-- PLM_MODULE_ID << 8 | 1
abbrev pub command_word : ℕ
command_word = plm_module_id * 256 + 1

-- The loop until the loader has acknowledged, on fuel.
unfoldable pub wait_observed : (fuel : ℕ) → Linux (Unit {0})
wait_observed zero = hung
wait_observed (suc n) = do
  let rest = wait_observed n
  val ← ask (read32 ipi ipi_obs_offset)
  if bit_and val remote_ipi_mask == 0 then pure tt else rest

unfoldable pub send_ipi_msg : (fuel counter : ℕ) → Linux ℕ
send_ipi_msg fuel counter = do
  tell (write32 ipi_buf ipi3_to_plm_req_offset command_word)
  tell (write32 ipi_buf (ipi3_to_plm_req_offset + 4) counter)
  tell (write32 ipi ipi_trig_offset remote_ipi_mask)
  wait_observed fuel
  ask (read32 ipi_buf (ipi3_to_plm_req_offset + 32 + 4))

unfoldable pub ipi_irq_handler : Linux (Unit {0})
ipi_irq_handler = do
  val ← ask (read32 ipi_buf plm_to_ipi3_req_offset)
  tell (write32 ipi_buf (plm_to_ipi3_req_offset + 32) (add32 val 1))
  val2 ← ask (read32 ipi ipi_isr_offset)
  when (not (bit_and val2 remote_ipi_mask == 0)) (tell (write32 ipi ipi_isr_offset remote_ipi_mask))

-- The end of `init_ipi`, with both devices open.
unfoldable pub prepare_irq : Linux Code
prepare_irq = do
  tell (write32 ipi ipi_idr_offset remote_ipi_mask)
  tell irq_disable
  tell irq_register
  pure zero_code

unfoldable pub open_ipi : Linux Code
unfolding prepare_irq
open_ipi = do
  s ← call (device_open ipi)
  elim s [
    | failure ↦ pure callee
    | success ↦ do
      modify λ p. record p { ipi_dev = true }
      region ← ask (io_region ipi)
      modify λ p. record p { ipi_io = not (region == 0) }
      if region == 0
          then (do tell (device_close ipi_buf); tell (device_close ipi); pure minus_enodev)
          else prepare_irq
  ]

unfoldable pub init_ipi : Linux Code
unfolding open_ipi
init_ipi = do
  s ← call (device_open ipi_buf)
  elim s [
    | failure ↦ pure callee
    | success ↦ do
      modify λ p. record p { ipi_buf_dev = true }
      region ← ask (io_region ipi_buf)
      modify λ p. record p { ipi_io_buffer = not (region == 0) }
      if region == 0 then (do tell (device_close ipi_buf); pure minus_enodev) else open_ipi
  ]

unfoldable pub deinit_ipi : Linux (Unit {0})
deinit_ipi = do
  p ← gets (λ p. p)
  when p.ipi_io (tell (write32 ipi ipi_idr_offset remote_ipi_mask))
  tell irq_disable
  tell irq_unregister
  when p.ipi_dev (do tell (device_close ipi); modify λ p. record p { ipi_dev = false })
  when p.ipi_buf_dev (do tell (device_close ipi_buf); modify λ p. record p { ipi_buf_dev = false })

-- The loop of `main`, so many rounds of it: the trip counter. The source loops without end.
unfoldable pub send_loop : (fuel rounds trip_counter : ℕ) → Linux ℕ
send_loop fuel zero trip_counter = pure trip_counter
send_loop fuel (suc n) trip_counter = do
  t ← send_ipi_msg fuel (add32 trip_counter 1)
  send_loop fuel n t

-- `out:`, with what `main` returns
unfoldable pub out : Code → Linux Code
unfolding deinit_ipi
out ret = do deinit_ipi; tell metal_finish; pure ret

unfoldable pub serve : (fuel rounds : ℕ) → Linux Code
unfolding send_loop
serve fuel rounds = do
  tell irq_enable
  tell (write32 ipi ipi_ier_offset remote_ipi_mask)
  trip_counter ← send_loop fuel rounds 0
  hung

unfoldable pub main : (fuel rounds : ℕ) → Linux Code
unfolding out init_ipi
main fuel rounds = do
  s ← call metal_init
  elim s [
    | failure ↦ out callee
    | success ↦ do
      ret ← init_ipi
      elim ret [
        | zero_code ↦ serve fuel rounds
        | callee ↦ out callee
        | minus_enodev ↦ out minus_enodev
      ]
  ]
