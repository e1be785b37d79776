-- ===== src/Clock/Setup.antt =====
-- `ProgramSi5381` of zcu670-si5381/Si5381A-programming.c, with the table of registers as an argument.
-- The mismatches of the readback are only printed, so the model leaves the comparison out.
use software_prototypes.Base.{
  ℕ, suc, List, [], ◌∷◌, ◌==◌, ltb, ◌+◌, ◌*◌, ◌-◌, if◌then◌else◌, get_or, length, take, drop,
}
use software_prototypes.Machine.{
  Status, success, failure, pure, faulted, call, ask, tell, when, ◌>>=◌, ◌>>◌,
}
use software_prototypes.Clock.{
  Register, lookup_config, cfg_initialize, set_sclk, usleep, I2c, part_num_cmd, preamble_size,
  postamble_size, si5381_addr, si5381_id, send_polled, write_si538x_register, read_si538x_register,
}

-- I2C_MUXADDR and SI5381_MUXVAL
abbrev pub i2c_muxaddr : ℕ
i2c_muxaddr = 0x74

abbrev pub si5381_muxval : ℕ
si5381_muxval = 2

module _ (fuel : ℕ) where
  -- The loop that writes the registers from index `i` on, with the delay after the preamble.
  unfoldable pub write_all : (i : ℕ) → List Register → I2c Status
  write_all i [] = pure success
  write_all i (r ∷ rs) = do
    let rest = write_all (suc i) rs
    s ← write_si538x_register fuel si5381_addr r.address (r.value ∷ [])
    elim s [
      | failure ↦ pure failure
      | success ↦ do when (i == preamble_size - 1) (tell (usleep (625 * 1000))); rest
    ]

  -- The loop that reads the registers back.
  unfoldable pub read_all : List Register → I2c Status
  read_all [] = pure success
  read_all (r ∷ rs) = do
    let rest = read_all rs
    (s, bytes) ← read_si538x_register fuel si5381_addr r.address 1
    elim s [ failure ↦ pure failure | success ↦ rest ]

  -- With less registers than the postamble has the bound wraps around, and the loop leaves the table.
  unfoldable pub read_back : List Register → I2c Status
  read_back regs =
      if ltb (length regs) postamble_size
      then faulted
      else read_all (drop preamble_size (take (length regs - postamble_size) regs))

  unfoldable pub program_registers : List Register → I2c Status
  program_registers regs = do
    s ← write_all 0 regs
    elim s [ failure ↦ pure failure | success ↦ read_back regs ]

  -- From the read of the identifier on; the status of that read is not looked at.
  unfoldable pub identify_and_program : List Register → I2c Status
  identify_and_program regs = do
    (s, bytes) ← read_si538x_register fuel si5381_addr part_num_cmd 2
    if get_or bytes 1 0 * 256 + get_or bytes 0 0 == si5381_id
        then program_registers regs
        else pure failure

  unfoldable pub select_and_program : List Register → I2c Status
  select_and_program regs = do
    s ← send_polled fuel i2c_muxaddr (si5381_muxval ∷ [])
    elim s [ failure ↦ pure failure | success ↦ identify_and_program regs ]

  unfoldable pub program_si5381 : List Register → I2c Status
  program_si5381 regs = do
    config ← ask lookup_config
    s ← (if config == 0 then pure failure else call cfg_initialize)
    t ← elim s [ failure ↦ pure failure | success ↦ call (set_sclk 400000) ]
    elim t [ failure ↦ pure failure | success ↦ select_and_program regs ]
