-- ===== src/Plm/Session.antt =====
-- `User_Init` of plm-r5-a72-ipi/plm/user_ipi_demo.c, and what the loader runs of the module from then on:
-- commands and periods of the scheduler, in any order.
use software_prototypes.Base.{
  ℕ, suc, zero, ◌≡◌, ◌≢◌, ◌↔◌, refl, Bool, List, [], ◌∷◌, length, replicate, Option, none, some,
  ◌==◌, ◌+◌, ◌-◌, ◌%◌, ◌^◌, if◌then◌else◌, arith,
}
use software_prototypes.Machine.{Env, World, Act, pure, ok, call, tell, gets, modify, ◌>>=◌, ◌>>◌}
use software_prototypes.Plm.{Module, task_period_ms, Plm, process_cmd, user_task}

-- XUSER_API_MAX
abbrev pub xuser_api_max : ℕ
xuser_api_max = 2

-- A command handler, of which the module has one.
pub data Handler : Type 0 where
  process_cmd_handler : Handler

pub data InitCall : Type 0 where
  -- with the command table and its size
  module_register : List (Option Handler) → (cmd_cnt : ℕ) → InitCall
  scheduler_add_task : (period_ms : ℕ) → InitCall

-- UserCmds[i].Handler = ProcessCmd
unfoldable pub set_handler : (i : ℕ) → List (Option Handler) → List (Option Handler)
set_handler i [] = []
set_handler zero (h ∷ hs) = some process_cmd_handler ∷ hs
set_handler (suc i) (h ∷ hs) = h ∷ set_handler i hs

-- The loop of `User_Init`, the last n entries to be done.
unfoldable pub init_loop : (n : ℕ) → List (Option Handler) → List (Option Handler)
unfolding set_handler
init_loop zero hs = hs
init_loop (suc n) hs = init_loop n (set_handler (xuser_api_max - suc n) hs)

-- The error of the scheduler is only printed.
unfoldable pub user_init : Act InitCall (List (Option Handler)) (Unit {0})
unfolding init_loop
user_init = do
  modify (init_loop xuser_api_max)
  cmds ← gets (λ cmds. cmds)
  tell (module_register cmds xuser_api_max)
  s ← call (scheduler_add_task task_period_ms)
  pure tt

-- The static table before `User_Init`.
abbrev pub no_handlers : World InitCall (List (Option Handler))
no_handlers = record { log = []; globals = replicate xuser_api_max none }

-- The handler at an index, none outside of the table.
unfoldable pub handler_at : ℕ → List (Option Handler) → Option Handler
handler_at i [] = none
handler_at zero (h ∷ hs) = h
handler_at (suc i) (h ∷ hs) = handler_at i hs

pub data Event : Type 0 where
  command : (cmd_id payload : ℕ) → Event
  period : Event

module _ (unidirect : Bool) where
  unfoldable pub on_event : Event → Plm (Unit {0})
  on_event (command cmd_id payload) = modify λ m. (process_cmd cmd_id payload m).1
  on_event period = user_task unidirect

  unfoldable pub session : List Event → Plm (Unit {0})
  session [] = pure tt
  session (v ∷ vs) = do let rest = session vs; on_event v; rest

unfoldable pub periods : List Event → ℕ
periods [] = 0
periods (command cmd_id payload ∷ vs) = periods vs
periods (period ∷ vs) = suc (periods vs)

-- What the R5 is to be sent, newest first, by the number of the period and the R5's counter.
unfoldable pub expected : (count counter : ℕ) → List Event → List ℕ → List ℕ
expected count counter [] ws = ws
expected count counter (command cmd_id payload ∷ vs) ws =
    if cmd_id % 256 == 0
    then expected count ((payload + 1) % 2 ^ 32) vs ws
    else expected count counter vs ws
expected count counter (period ∷ vs) ws =
    if count % 10 == 0
    then expected (suc count) counter vs (counter ∷ ws)
    else expected (suc count) counter vs ws

abbrev full_table : List (Option Handler)
full_table = some process_cmd_handler ∷ some process_cmd_handler ∷ []

handler_at-process_cmd :
    (i cmd_id payload : ℕ) (m : Module)
    → cmd_id % 256 ≡ i
    → (handler_at i full_table ≡ some process_cmd_handler)
      ↔ ((process_cmd cmd_id payload m).0 ≢ none)
unfolding handler_at process_cmd
handler_at-process_cmd zero cmd_id payload m h = (λ _ q. ground (arith, h, q), λ _. refl)
handler_at-process_cmd (suc zero) cmd_id payload m h = (λ _ q. ground (arith, h, q), λ _. refl)
handler_at-process_cmd (suc (suc i)) cmd_id payload m h =
    (λ q. ground (arith, q), λ n. absurd (n (ground (arith, h))))

module _ (e : Env InitCall) where
  -- User_Init registers with xplmi a table of the size that it names, in which the low byte of a command
  -- has a handler exactly where ProcessCmd, which is that handler, gives a response.
  pub user_init-process_cmd :
      (cmd_id payload : ℕ) (m : Module)
      → let (r, w) = user_init e no_handlers in
        (r ≡ ok tt)
        × (w.log ≡ scheduler_add_task 10 ∷ module_register w.globals (length w.globals) ∷ [])
        × ((handler_at (cmd_id % 256) w.globals ≡ some process_cmd_handler)
            ↔ ((process_cmd cmd_id payload m).0 ≢ none))
  unfolding user_init process_cmd handler_at
  user_init-process_cmd cmd_id payload m =
      (refl, refl, handler_at-process_cmd (cmd_id % 256) cmd_id payload m refl)
