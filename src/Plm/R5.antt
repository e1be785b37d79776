-- ===== src/Plm/R5.antt =====
-- The R5's application plm-r5-a72-ipi/r5/xilmailbox_example.c. The mailbox library is answered by the
-- environment, and so are the interrupts that set RecvDone and ErrorStatus.
use software_prototypes.Base.{ℕ, suc, zero, ◌==◌, ◌+◌, ◌*◌, if◌then◌else◌, get_or}
use software_prototypes.Word.{add32}
use software_prototypes.Machine.{
  Status, success, failure, Act, pure, hung, call, fetch, ask, tell, gets, modify, ◌>>=◌, ◌>>◌,
}

abbrev pub xplmi_module_user_id : ℕ
xplmi_module_user_id = 13

abbrev pub xuser_r5 : ℕ
xuser_r5 = 0

-- XPLMI_MODULE_USER_ID << 8 | XUSER_R5
abbrev pub command_word : ℕ
command_word = xplmi_module_user_id * 256 + xuser_r5

pub data MailboxCall : Type 0 where
  initialize set_callbacks : MailboxCall
  -- ErrorStatus = 0 and RecvDone = 0, and a read of either
  clear_error_status clear_recv_done : MailboxCall
  read_recv_done read_error_status : MailboxCall
  -- two words of a request, or one of a response
  recv_request recv_response : MailboxCall
  send_request : (word payload : ℕ) → MailboxCall

-- The words of RequestBuffer.
pub record Buffer : Type 0 where
  pub request0 : ℕ
  pub request1 : ℕ

abbrev pub R5 : Type 0 → Type 0
R5 A = Act MailboxCall Buffer A

-- Whether the loop goes on, or is left at a call that failed.
pub data Pass : Type 0 where
  go_on leave : Pass

-- `while(!ErrorStatus && !RecvDone);`, on fuel
unfoldable pub wait_flags : (fuel : ℕ) → R5 (Unit {0})
wait_flags zero = hung
wait_flags (suc n) = do
  let rest = wait_flags n
  error_status ← ask read_error_status
  if error_status == 0
      then (do recv_done ← ask read_recv_done; if recv_done == 0 then rest else pure tt)
      else pure tt

-- The wait for a message and its read, unless the buffer is still as it was initialised.
unfoldable pub receive : (fuel : ℕ) → R5 Pass
receive fuel = do
  b ← gets (λ b. b)
  if b.request0 == 0 then pure go_on else (do
    tell clear_error_status
    tell clear_recv_done
    wait_flags fuel
    (s, words) ← fetch recv_request
    elim s [
      | failure ↦ pure leave
      | success ↦ do
        modify λ b. record {
          request0 = get_or words 0 b.request0;
          request1 = get_or words 1 b.request1;
        }
        pure go_on
    ])

-- The command to the loader with the trip counter, and the read of its response.
unfoldable pub send_back : R5 Pass
send_back = do
  modify λ b. record { request0 = command_word; request1 = add32 b.request0 1 }
  b ← gets (λ b. b)
  s ← call (send_request b.request0 b.request1)
  elim s [
    | failure ↦ pure leave
    | success ↦ do
      (t, words) ← fetch recv_response
      elim t [ failure ↦ pure leave | success ↦ pure go_on ]
  ]

unfoldable pub pass : (fuel : ℕ) → R5 Pass
pass fuel = do p ← receive fuel; elim p [ leave ↦ pure leave | go_on ↦ send_back ]

-- So many passes of the loop, which ends at the first failure.
unfoldable pub passes : (fuel n : ℕ) → R5 Status
passes fuel zero = hung
passes fuel (suc n) = do
  let rest = passes fuel n
  p ← pass fuel
  elim p [ leave ↦ pure failure | go_on ↦ rest ]

unfoldable pub main : (fuel n : ℕ) → R5 Status
main fuel n = do
  s ← call initialize
  elim s [
    | failure ↦ pure failure
    | success ↦ do
      tell set_callbacks
      modify λ b. record { request0 = 0; request1 = 0 }
      passes fuel n
  ]
