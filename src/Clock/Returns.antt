-- ===== src/Clock/Returns.antt =====
-- That the functions of zcu670-si5381/Si5381A-programming.c return, on a bus that is not busy when it is
-- asked. They wait for the bus without a limit.
use software_prototypes.Base.{
  ℕ, suc, ◌≡◌, ◌⊎◌, inl, refl, List, [], ◌∷◌, ◌≤◌, ◌%◌, ◌-◌, take, drop, length, arith,
}
use software_prototypes.Machine.{
  Status, success, failure, Env, World, Outcome, ok, stop, hang, fault, logged,
}
use software_prototypes.Clock.{
  Register, I2cCall, bus_is_busy, lookup_config, cfg_initialize, set_sclk, usleep, Cache, page_cmd,
  page_of, part_num_cmd, preamble_size, postamble_size, si5381_addr, send, recv, wait_loop,
  send_polled, set_page, send_register, write_si538x_register, recv_polled, read_si538x_register,
}
use software_prototypes.Clock.Setup.{
  i2c_muxaddr, si5381_muxval, write_all, read_all, read_back, program_registers,
  identify_and_program, select_and_program, program_si5381,
}
use software_prototypes.Clock.Device.{write_reduces}

module _ (e : Env I2cCall) (n : ℕ) (idle : (l : List I2cCall) → e.value l bus_is_busy ≡ 0) where
  abbrev pub Returns : Outcome Status → Type 0
  Returns r = (r ≡ ok success) ⊎ (r ≡ ok failure)

  wait_loop_returns : (w : World I2cCall Cache) → (wait_loop (suc n) (suc n) e w).0 ≡ ok tt
  unfolding wait_loop
  wait_loop_returns w = ground (arith, idle w.log)

  send_polled-Returns :
      (s : ℕ) (b : List ℕ) (w : World I2cCall Cache) → Returns (send_polled (suc n) s b e w).0
  unfolding send_polled
  send_polled-Returns s b w = ground (arith, wait_loop_returns (logged (send s b) w))

  set_page-Returns :
      (a page : ℕ) (w : World I2cCall Cache) → Returns (set_page (suc n) a page e w).0
  unfolding set_page
  set_page-Returns a page w = ground (arith, send_polled-Returns a (page_cmd ∷ page ∷ []) w)

  send_register-Returns :
      (a reg : ℕ) (b : List ℕ) (w : World I2cCall Cache)
      → length b ≤ 2
      → Returns (send_register (suc n) a reg b e w).0
  unfolding send_register
  send_register-Returns a reg b w h = ground (arith, h, send_polled-Returns a (reg % 256 ∷ b) w)

  pub write-Returns :
      (a reg : ℕ) (b : List ℕ) (w : World I2cCall Cache)
      → length b ≤ 2
      → Returns (write_si538x_register (suc n) a reg b e w).0
  write-Returns a reg b w h = ground (
    arith,
    write_reduces e a (suc n) reg b w,
    set_page-Returns a (page_of reg) w,
    send_register-Returns a reg b ((set_page (suc n) a (page_of reg) e w).1) h,
  )

  recv_polled_returns :
      (a len : ℕ) (w : World I2cCall Cache)
      → (recv_polled (suc n) a len e w).0
        ≡ ok (e.status w.log (recv a len), e.words w.log (recv a len))
  unfolding recv_polled
  recv_polled_returns a len w = ground (arith, wait_loop_returns (logged (recv a len) w))

  -- What a read gives: nothing when its address could not be sent.
  abbrev read_result : (a reg len : ℕ) → World I2cCall Cache → Status × List ℕ
  read_result a reg len w =
      let (r, w') = write_si538x_register (suc n) a reg [] e w in
      elim r [
        | ok s ↦ elim s [
          | success ↦ (e.status w'.log (recv a len), e.words w'.log (recv a len))
          | failure ↦ (failure, [])
        ]
        | stop ↦ (failure, [])
        | hang ↦ (failure, [])
        | fault ↦ (failure, [])
      ]

  pub read_returns :
      (a reg len : ℕ) (w : World I2cCall Cache)
      → (read_si538x_register (suc n) a reg len e w).0 ≡ ok (read_result a reg len w)
  unfolding read_si538x_register
  read_returns a reg len w = ground (
    arith,
    write-Returns a reg [] w,
    recv_polled_returns a len ((write_si538x_register (suc n) a reg [] e w).1),
  )

  write_all-Returns :
      (i : ℕ) (rs : List Register) (w : World I2cCall Cache)
      → Returns (write_all (suc n) i rs e w).0
  unfolding write_all
  write_all-Returns i [] w = inl refl
  write_all-Returns i (r ∷ rs) w =
      let w1 = (write_si538x_register (suc n) si5381_addr r.address (r.value ∷ []) e w).1 in
      ground (
        arith,
        write-Returns si5381_addr r.address (r.value ∷ []) w,
        write_all-Returns (suc i) rs w1,
        write_all-Returns (suc i) rs (logged (usleep 625000) w1),
      )

  read_all-Returns :
      (rs : List Register) (w : World I2cCall Cache) → Returns (read_all (suc n) rs e w).0
  unfolding read_all
  read_all-Returns [] w = inl refl
  read_all-Returns (r ∷ rs) w = ground (
    arith,
    read_returns si5381_addr r.address 1 w,
    read_all-Returns rs ((read_si538x_register (suc n) si5381_addr r.address 1 e w).1),
  )

  program_registers-Returns :
      (regs : List Register) (w : World I2cCall Cache)
      → postamble_size ≤ length regs
      → Returns (program_registers (suc n) regs e w).0
  unfolding program_registers read_back
  program_registers-Returns regs w h =
      let rest = drop preamble_size (take (length regs - postamble_size) regs) in
      ground (
        arith,
        h,
        write_all-Returns 0 regs w,
        read_all-Returns rest ((write_all (suc n) 0 regs e w).1),
      )

  identify-Returns :
      (regs : List Register) (w : World I2cCall Cache)
      → postamble_size ≤ length regs
      → Returns (identify_and_program (suc n) regs e w).0
  unfolding identify_and_program
  identify-Returns regs w h =
      let w1 = (read_si538x_register (suc n) si5381_addr part_num_cmd 2 e w).1 in
      ground (arith, read_returns si5381_addr part_num_cmd 2 w, program_registers-Returns regs w1 h)

  select-Returns :
      (regs : List Register) (w : World I2cCall Cache)
      → postamble_size ≤ length regs
      → Returns (select_and_program (suc n) regs e w).0
  unfolding select_and_program
  select-Returns regs w h =
      let mux = si5381_muxval ∷ [] in
      ground (
        arith,
        send_polled-Returns i2c_muxaddr mux w,
        identify-Returns regs ((send_polled (suc n) i2c_muxaddr mux e w).1) h,
      )

  -- On a bus that is not busy when it is asked, with fuel for one question at each wait, and with a
  -- table of at least the registers of the postamble: `ProgramSi5381` returns XST_SUCCESS or
  -- XST_FAILURE, and no array is accessed out of bounds.
  pub program_si5381-Returns :
      (regs : List Register) (w : World I2cCall Cache)
      → postamble_size ≤ length regs
      → Returns (program_si5381 (suc n) regs e w).0
  unfolding program_si5381
  program_si5381-Returns regs w h =
      let log = set_sclk 400000 ∷ cfg_initialize ∷ lookup_config ∷ w.log in
      ground (arith, select-Returns regs (record w { log = log }) h)
