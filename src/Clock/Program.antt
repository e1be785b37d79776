-- ===== src/Clock/Program.antt =====
-- `ProgramSi5381`: what a successful run writes into the device.
use software_prototypes.Base.{
  ℕ, suc, ◌≡◌, ◌≢◌, refl, sym, ap, ◌∙◌, List, [], ◌∷◌, ◌==◌, ◌<◌, ◌-◌, ◌%◌, All, take, drop, length,
  if◌then◌else◌, arith,
}
use software_prototypes.Machine.{
  Status, success, failure, Env, World, Outcome, ok, stop, hang, fault, logged,
}
use software_prototypes.Clock.{
  Register, I2cCall, lookup_config, cfg_initialize, set_sclk, usleep, Cache, page_cmd, part_num_cmd,
  preamble_size, postamble_size, si5381_addr, send_polled, write_si538x_register,
  read_si538x_register,
}
use software_prototypes.Clock.Setup.{
  i2c_muxaddr, si5381_muxval, write_all, read_all, read_back, program_registers,
  identify_and_program, select_and_program, program_si5381,
}
use software_prototypes.Clock.Device.{
  device_page, device_writes, Coherent, Same, write_si538x_register_lem, read_lem, send_polled_lem,
}

-- The registers in the order of the table, each put before the ones written so far.
unfoldable pub written : List Register → List (ℕ × ℕ) → List (ℕ × ℕ)
written [] l = l
written (r ∷ rs) l = written rs ((r.address, r.value) ∷ l)

-- An address of 16 bits, which is not that of the page register.
abbrev pub IsAddress : Register → Type 0
IsAddress r = (r.address < 65536) × (r.address % 256 ≢ page_cmd)

module _ (e : Env I2cCall) (fuel : ℕ) where
  abbrev writes_of : World I2cCall Cache → List (ℕ × ℕ)
  writes_of w = device_writes e si5381_addr w.log

  -- The world behind the write of a register, and behind the delay.
  abbrev one : Register → World I2cCall Cache → World I2cCall Cache
  one r w = (write_si538x_register fuel si5381_addr r.address (r.value ∷ []) e w).1

  abbrev delayed : ℕ → World I2cCall Cache → World I2cCall Cache
  delayed i w = if i == 2 then logged (usleep 625000) w else w

  write_all_step :
      (i : ℕ) (r : Register) (rs : List Register) (w : World I2cCall Cache)
      → (write_all fuel i (r ∷ rs) e w).0 ≡ ok success
      → ((write_si538x_register fuel si5381_addr r.address (r.value ∷ []) e w).0 ≡ ok success)
        × (write_all fuel i (r ∷ rs) e w ≡ write_all fuel (suc i) rs e (delayed i (one r w)))
  unfolding write_all
  write_all_step i r rs w h = ground (arith, h)

  delayed_lem :
      (i : ℕ) (w : World I2cCall Cache)
      → Coherent e si5381_addr w
      → Coherent e si5381_addr (delayed i w) × (writes_of (delayed i w) ≡ writes_of w)
  unfolding device_page device_writes Coherent
  delayed_lem i w h = ground (arith, h)

  write_all_lem :
      (i : ℕ) (rs : List Register) (w : World I2cCall Cache)
      → All IsAddress rs
      → Coherent e si5381_addr w
      → (write_all fuel i rs e w).0 ≡ ok success
      → let w' = (write_all fuel i rs e w).1 in
        Coherent e si5381_addr w' × (writes_of w' ≡ written rs (writes_of w))
  unfolding write_all written
  write_all_lem i [] w a h q = (h, refl)
  write_all_lem i (r ∷ rs) w ((b, n), a) h q =
      let (s, m) = write_all_step i r rs w q in
      let (c, d) = write_si538x_register_lem e si5381_addr fuel r.address r.value w b n h s in
      let (c', d') = delayed_lem i (one r w) c in
      let (x, y) =
        write_all_lem (suc i) rs (delayed i (one r w)) a c' (sym (ap (λ p. p.0) m) ∙ q) in
      rw m (x, y ∙ ap (written rs) (d' ∙ d))

  -- What a read gives where it returns.
  abbrev answer : Outcome (Status × List ℕ) → Status × List ℕ
  answer (ok x) = x
  answer stop = (failure, [])
  answer hang = (failure, [])
  answer fault = (failure, [])

  abbrev read_of :
      (reg n : ℕ) → World I2cCall Cache → Outcome (Status × List ℕ) × World I2cCall Cache
  read_of reg n w = read_si538x_register fuel si5381_addr reg n e w

  read_all_step :
      (r : Register) (rs : List Register) (w : World I2cCall Cache)
      → (read_all fuel (r ∷ rs) e w).0 ≡ ok success
      → let (x, w') = read_of r.address 1 w in
        (x ≡ ok (answer x)) × (read_all fuel (r ∷ rs) e w ≡ read_all fuel rs e w')
  unfolding read_all
  read_all_step r rs w q = ground (arith, q)

  read_all_lem :
      (rs : List Register) (w : World I2cCall Cache)
      → Coherent e si5381_addr w
      → (read_all fuel rs e w).0 ≡ ok success
      → let w' = (read_all fuel rs e w).1 in
        Coherent e si5381_addr w' × (writes_of w' ≡ writes_of w)
  unfolding read_all
  read_all_lem [] w h q = (h, refl)
  read_all_lem (r ∷ rs) w h q =
      let (x, m) = read_all_step r rs w q in
      let (c, d) = read_lem e si5381_addr fuel r.address 1 _ w h x in
      let (c', d') = read_all_lem rs (read_of r.address 1 w).1 c (sym (ap (λ p. p.0) m) ∙ q) in
      rw m (c', d' ∙ d)

  program_registers_lem :
      (regs : List Register) (w : World I2cCall Cache)
      → All IsAddress regs
      → Coherent e si5381_addr w
      → (program_registers fuel regs e w).0 ≡ ok success
      → let w' = (program_registers fuel regs e w).1 in
        Coherent e si5381_addr w' × (writes_of w' ≡ written regs (writes_of w))
  unfolding program_registers read_back
  program_registers_lem regs w a h q =
      let w1 = (write_all fuel 0 regs e w).1 in
      let rest = drop preamble_size (take (length regs - postamble_size) regs) in
      ground (arith, q, write_all_lem 0 regs w a h, read_all_lem rest w1)

  identify_lem :
      (regs : List Register) (w : World I2cCall Cache)
      → All IsAddress regs
      → Coherent e si5381_addr w
      → (identify_and_program fuel regs e w).0 ≡ ok success
      → let w' = (identify_and_program fuel regs e w).1 in
        Coherent e si5381_addr w' × (writes_of w' ≡ written regs (writes_of w))
  unfolding identify_and_program
  identify_lem regs w a h q =
      let read = read_of part_num_cmd 2 w in
      ground (
        arith,
        q,
        read_lem e si5381_addr fuel part_num_cmd 2 (answer read.0) w h,
        program_registers_lem regs read.1 a,
      )

  select_lem :
      (regs : List Register) (w : World I2cCall Cache)
      → All IsAddress regs
      → Coherent e si5381_addr w
      → (select_and_program fuel regs e w).0 ≡ ok success
      → let w' = (select_and_program fuel regs e w).1 in
        Coherent e si5381_addr w' × (writes_of w' ≡ written regs (writes_of w))
  unfolding select_and_program device_page device_writes Coherent Same
  select_lem regs w a h q =
      let mux = si5381_muxval ∷ [] in
      let sent = (send_polled fuel i2c_muxaddr mux e w).1 in
      ground (
        arith,
        q,
        h,
        send_polled_lem e si5381_addr fuel i2c_muxaddr mux w,
        identify_lem regs sent a,
      )

  -- When `ProgramSi5381` succeeds on a table whose addresses have 16 bits and are not that of the
  -- page register, from a cache that agrees with the device: every register of the table was written
  -- at its address with its value, in the order of the table and nothing else, whatever the bus did,
  -- and the cache still agrees with the device.
  pub program_si5381-written :
      (regs : List Register) (w : World I2cCall Cache)
      → All IsAddress regs
      → Coherent e si5381_addr w
      → (program_si5381 fuel regs e w).0 ≡ ok success
      → let w' = (program_si5381 fuel regs e w).1 in
        Coherent e si5381_addr w'
        × (device_writes e si5381_addr w'.log ≡ written regs (device_writes e si5381_addr w.log))
  unfolding program_si5381 device_page device_writes Coherent
  program_si5381-written regs w a h q =
      let log = set_sclk 400000 ∷ cfg_initialize ∷ lookup_config ∷ w.log in
      ground (arith, q, h, select_lem regs (record w { log = log }) a)
