-- ===== src/Plm.antt =====
-- The user module of the Versal platform loader and manager, plm-r5-a72-ipi/plm/user_ipi_demo.c: its
-- commands and its periodic task. The xplmi library is answered by the environment.
pub mod Rate
pub mod A72
pub mod R5
pub mod Trips
pub mod Session
mod Tests
use software_prototypes.Base.{
  ℕ, suc, zero, Bool, true, false, List, [], ◌∷◌, ◌==◌, ◌&&◌, ◌+◌, ◌/◌, ◌%◌, Option, none, some,
  if◌then◌else◌, get_or,
}
use software_prototypes.Word.{add32}
use software_prototypes.Machine.{
  Status, success, failure, Env, World, Act, pure, call, fetch, gets, modify, when, ◌>>=◌, ◌>>◌,
}

-- The static variables: TripCounter for the R5 and the A72, and those of `UserTask`. The `int`
-- ExecutionCount is its bit pattern; from 2^31 - 1 on its increment is not defined in C, and wraps here.
pub record Module : Type 0 where
  pub r5_counter : ℕ
  pub a72_counter : ℕ
  pub execution_count : ℕ
  pub waiting : Bool

abbrev pub xuser_r5 : ℕ
xuser_r5 = 0

abbrev pub xuser_a72 : ℕ
xuser_a72 = 1

abbrev pub task_period_ms : ℕ
task_period_ms = 10

abbrev pub msg_period_ms : ℕ
msg_period_ms = 100

-- The processors of R5_IPI_MASK and A72_IPI_MASK.
pub data Target : Type 0 where
  r5 a72 : Target

pub data PlmCall : Type 0 where
  ipi_write : (target : Target) (word : ℕ) → PlmCall
  ipi_trigger ipi_poll_for_ack ipi_read : Target → PlmCall

abbrev pub Plm : Type 0 → Type 0
Plm A = Act PlmCall Module A

-- A command's payload word gives the new state and the response, or XST_INVALID_PARAM.
unfoldable pub process_cmd : (cmd_id payload : ℕ) → Module → Option ℕ × Module
process_cmd cmd_id payload m =
    let count = add32 payload 1 in
    if cmd_id % 256 == xuser_r5
    then (some count, record m { r5_counter = count })
    else (if cmd_id % 256 == xuser_a72
        then (some count, record m { a72_counter = count })
        else (none, m))

-- A write and a trigger; their errors are only printed.
unfoldable pub send_message : Target → ℕ → Plm (Unit {0})
send_message target word = do
  s ← call (ipi_write target word)
  t ← call (ipi_trigger target)
  pure tt

-- The A72's response, if there is one.
unfoldable pub poll_response : Plm (Unit {0})
poll_response = do
  s ← call (ipi_poll_for_ack a72)
  elim s [
    | failure ↦ pure tt
    | success ↦ do
      m ← gets (λ m. m)
      (t, words) ← fetch (ipi_read a72)
      let word : ℕ = elim t [ failure ↦ m.a72_counter | success ↦ get_or words 0 0 ]
      modify λ m. record m { a72_counter = add32 word 1; waiting = false }
  ]

-- `unidirect` is the build option PLM_2_A72_UNIDIRECT.
module _ (unidirect : Bool) where
  unfoldable pub send_messages : Plm (Unit {0})
  send_messages = do
    m ← gets (λ m. m)
    send_message r5 m.r5_counter
    when unidirect (do send_message a72 m.a72_counter; modify λ m. record m { waiting = true })

  unfoldable pub user_task : Plm (Unit {0})
  user_task = do
    m ← gets (λ m. m)
    when (m.execution_count % (msg_period_ms / task_period_ms) == 0) send_messages
    waiting ← gets Module.waiting
    when (unidirect && waiting) poll_response
    modify λ m. record m { execution_count = add32 m.execution_count 1 }

  -- So many periods of the scheduler.
  unfoldable pub user_tasks : ℕ → Plm (Unit {0})
  user_tasks zero = pure tt
  user_tasks (suc n) = do let rest = user_tasks n; user_task; rest
