-- ===== src/Clock/Tests.antt =====
-- A run of the clock programming on a device that answers its identifier.
use software_prototypes.Base.{◌≡◌, ◌⊎◌, refl, none, List, [], ◌∷◌, arith}
use software_prototypes.Machine.{success, failure, Env, World, ok}
use software_prototypes.Clock.{
  Register, I2cCall, lookup_config, Cache, si5381_addr, wait_loop, send_polled, set_page,
  send_register, write_si538x_register, recv_polled, read_si538x_register,
}
use software_prototypes.Clock.Setup.{
  write_all, read_all, read_back, program_registers, identify_and_program, select_and_program,
  program_si5381,
}
use software_prototypes.Clock.Device.{device_writes, Coherent, Agrees}
use software_prototypes.Clock.Program.{written, program_si5381-written}
use software_prototypes.Clock.Returns.{program_si5381-Returns}

-- The registers are in three pages.
abbrev table : List Register
table =
    record { address = 0xB24; value = 0xC0 }
    ∷ record { address = 0xB25; value = 0 }
    ∷ record { address = 0x540; value = 1 }
    ∷ record { address = 0x006; value = 3 }
    ∷ record { address = 0x514; value = 1 }
    ∷ record { address = 0x01C; value = 1 }
    ∷ record { address = 0x540; value = 0 }
    ∷ record { address = 0xB24; value = 0xC3 }
    ∷ []

abbrev env : Env I2cCall
env = record {
  status = λ _ _. success;
  value = λ _ c. elim c [ lookup_config ↦ 1 | _ ↦ 0 ];
  words = λ _ _. 0x81 ∷ 0x53 ∷ [];
}

abbrev world : World I2cCall Cache
world = record { log = []; globals = record { last_page = none; last_slave_addr = none } }

program_succeeds : (program_si5381 2 table env world).0 ≡ ok success
unfolding program_si5381 select_and_program identify_and_program program_registers read_back
    read_all write_all read_si538x_register recv_polled write_si538x_register send_register set_page
    send_polled wait_loop
program_succeeds = refl

world-Coherent : Coherent env si5381_addr world
unfolding Coherent Agrees
world-Coherent = tt

program_si5381-written_example :
    let w = (program_si5381 2 table env world).1 in
    Coherent env si5381_addr w
    × (device_writes env si5381_addr w.log ≡ written table (device_writes env si5381_addr []))
program_si5381-written_example =
    program_si5381-written env 2 table world (ground arith) world-Coherent program_succeeds

program_si5381-Returns_example :
    ((program_si5381 2 table env world).0 ≡ ok success)
    ⊎ ((program_si5381 2 table env world).0 ≡ ok failure)
program_si5381-Returns_example = program_si5381-Returns env 1 (λ _. refl) table world (omega arith)

write_succeeds : (write_si538x_register 2 si5381_addr 0xB24 (0xC0 ∷ []) env world).0 ≡ ok success
unfolding write_si538x_register send_register set_page send_polled wait_loop
write_succeeds = refl
