-- ===== src/Plm/Tests.antt =====
-- The user module of the platform loader at its first 25 periods.
use software_prototypes.Base.{
  ◌⊎◌, ◌%◌, ◌^◌, some, none, refl, List, length, replicate, ◌≢◌, ◌↔◌, ◌≡◌, ◌+◌, [], ◌∷◌, false,
}
use software_prototypes.Machine.{success, Env, World, ok}
use software_prototypes.Plm.{Module, PlmCall, process_cmd}
use software_prototypes.Plm.Session.{
  process_cmd_handler, InitCall, module_register, scheduler_add_task, no_handlers, handler_at,
  user_init, Event, command, period, user_init-process_cmd,
}
use software_prototypes.Metal.{MetalCall, Device, ipi, ipi_buf, opens, closes}
use software_prototypes.Plm.A72.{zero_code, callee, minus_enodev, init_ipi, deinit_ipi}
use software_prototypes.Plm.A72.Devices.{unset, buffer_region, register_region, init_ipi-deinit_ipi}
use software_prototypes.Plm.R5
use software_prototypes.Plm.{poll_response}
use software_prototypes.Plm.Trips.{
  polling, r5_env, last_command, poll_response-ipi_irq_handler, pass-process_cmd,
}

abbrev env : Env PlmCall
env = record { status = λ _ _. success; value = λ _ _. 0; words = λ _ _. [] }

abbrev world : World PlmCall Module
world = record {
  log = [];
  globals = record { r5_counter = 4; a72_counter = 0; execution_count = 0; waiting = false };
}

-- The first region that is asked for cannot be mapped.
abbrev unmapped : Env MetalCall
unmapped = record { status = λ _ _. success; value = λ _ _. 0; words = λ _ _. [] }

init_ipi-deinit_ipi_example :
    let (r, w) = init_ipi unmapped unset in
    let l = (deinit_ipi unmapped w).1.log in
    let balanced = λ (d : Device). closes d l ≡ opens unmapped d l in
    let twice = λ (d : Device). (opens unmapped d l ≡ 1) × (closes d l ≡ 2) in
    ((r ≡ ok zero_code) × balanced ipi × balanced ipi_buf)
    ⊎ ((r ≡ ok callee) × balanced ipi × balanced ipi_buf)
    ⊎ ((r ≡ ok minus_enodev) × (buffer_region unmapped ≡ 0) × balanced ipi × twice ipi_buf)
    ⊎ ((r ≡ ok minus_enodev) × (register_region unmapped ≡ 0) × twice ipi × twice ipi_buf)
init_ipi-deinit_ipi_example = init_ipi-deinit_ipi unmapped

poll_response-ipi_irq_handler_example :
    let m' = (poll_response (polling 0 unset) world).1 in
    (m'.globals.a72_counter ≡ (0 + 2) % 2 ^ 32)
    × (m'.globals.waiting ≡ false)
    × (m'.globals.r5_counter ≡ 4)
poll_response-ipi_irq_handler_example = poll_response-ipi_irq_handler world unset

abbrev second_pass : World R5.MailboxCall R5.Buffer
second_pass = record { log = []; globals = record { request0 = R5.command_word; request1 = 5 } }

pass-process_cmd_example :
    let (r, w') = R5.pass 2 (r5_env 4) second_pass in
    let (word, payload) = last_command w'.log in
    let (response, m') = process_cmd word payload world.globals in
    (r ≡ ok R5.go_on)
    × (w'.globals.request0 ≡ R5.command_word)
    × (m'.r5_counter ≡ (4 + 2) % 2 ^ 32)
    × (m'.a72_counter ≡ 0)
    × (response ≡ some m'.r5_counter)
pass-process_cmd_example = pass-process_cmd 1 world.globals second_pass refl

abbrev init_env : Env InitCall
init_env = record { status = λ _ _. success; value = λ _ _. 0; words = λ _ _. [] }

user_init-process_cmd_example :
    let (r, w) = user_init init_env no_handlers in
    (r ≡ ok tt)
    × (w.log ≡ scheduler_add_task 10 ∷ module_register w.globals (length w.globals) ∷ [])
    × ((handler_at (0x2101 % 256) w.globals ≡ some process_cmd_handler)
        ↔ ((process_cmd 0x2101 7 world.globals).0 ≢ none))
user_init-process_cmd_example = user_init-process_cmd init_env 0x2101 7 world.globals

-- A command of the R5 in the first of eleven periods.
abbrev busy : List Event
busy = period ∷ command 0x2100 41 ∷ replicate 10 period
