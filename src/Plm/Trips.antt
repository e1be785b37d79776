-- ===== src/Plm/Trips.antt =====
-- The trip counter between the processors of plm-r5-a72-ipi: each side's code run with what the other
-- side's code answers.
use Prim.Native.Nat.{bit_and}
use software_prototypes.Base.{
  not, ◌&&◌, ℕ, suc, ◌≡◌, false, List, [], ◌∷◌, ◌==◌, ◌+◌, ◌%◌, ◌^◌, Option, none, some,
  if◌then◌else◌, arith,
}
use software_prototypes.Machine.{success, failure, Env, World, ok}
use software_prototypes.Metal.{MetalCall, ipi, ipi_buf, read32, write32}
use software_prototypes.Plm.{Module, PlmCall, ipi_poll_for_ack, process_cmd, poll_response}
use software_prototypes.Plm.A72.{
  remote_ipi_mask, ipi_isr_offset, Pointers, ipi3_to_plm_req_offset, plm_to_ipi3_req_offset,
  ipi_irq_handler,
}
use software_prototypes.Plm.R5

-- The word last written into the message buffers at an offset.
unfoldable pub buffer_word : (offset : ℕ) → List MetalCall → ℕ
buffer_word offset [] = 0
buffer_word offset (write32 ipi_buf o word ∷ l) = if o == offset then word else buffer_word offset l
buffer_word offset (c ∷ l) = buffer_word offset l

abbrev response_word : Option ℕ → ℕ
response_word none = 0
response_word (some word) = word

-- The loader, at once idle again: its response to the command in the buffer, two words of it, is what
-- `ProcessCmd` makes of it.
unfoldable pub plm_value : Module → List MetalCall → MetalCall → ℕ
plm_value m l (read32 ipi_buf offset) =
    if offset == ipi3_to_plm_req_offset + 36
    then response_word
        (process_cmd (buffer_word ipi3_to_plm_req_offset l)
          (buffer_word (ipi3_to_plm_req_offset + 4) l) m).0
    else 0
plm_value m l c = 0

abbrev pub plm : Module → Env MetalCall
plm m = record { status = λ _ _. success; value = plm_value m; words = λ _ _. [] }

-- The A72 with this word in the request buffer and the loader's bit in the interrupt status register; all
-- else reads 0.
unfoldable pub a72_value : (word : ℕ) → MetalCall → ℕ
a72_value word (read32 ipi_buf offset) = if offset == plm_to_ipi3_req_offset then word else 0
a72_value word (read32 ipi offset) = if offset == ipi_isr_offset then remote_ipi_mask else 0
a72_value word c = 0

abbrev pub a72_bus : (word : ℕ) → Env MetalCall
a72_bus word = record {
  status = λ _ _. success;
  value = λ _ c. a72_value word c;
  words = λ _ _. [];
}

-- The response in the buffer when the loader's bit was cleared, if it was.
unfoldable pub acknowledged : List MetalCall → Option ℕ
acknowledged [] = none
acknowledged (write32 ipi offset word ∷ l) =
    if offset == ipi_isr_offset && not (bit_and word remote_ipi_mask == 0)
    then some (buffer_word (plm_to_ipi3_req_offset + 32) l)
    else acknowledged l
acknowledged (c ∷ l) = acknowledged l

-- The acknowledgement of the A72's interrupt handler for a word.
unfoldable pub a72_answer : (word : ℕ) → World MetalCall Pointers → Option ℕ
a72_answer word w = acknowledged (ipi_irq_handler (a72_bus word) (record w { log = [] })).1.log

-- The loader's poll succeeds where the handler has cleared the loader's bit, and its read gives the
-- response that stood in the buffer then.
abbrev pub answered : Option ℕ → Env PlmCall
answered r = record {
  status = λ _ c. elim c [
    | ipi_poll_for_ack t ↦ elim r [ none ↦ failure | some word ↦ success ]
    | _ ↦ success
  ];
  value = λ _ _. 0;
  words = λ _ _. elim r [ none ↦ [] | some word ↦ word ∷ [] ];
}

abbrev pub polling : (counter : ℕ) → World MetalCall Pointers → Env PlmCall
polling counter w = answered (a72_answer counter w)

-- Where the loader has sent its counter and waits, and its bit is set in the A72's interrupt status: the
-- A72's interrupt handler clears the bit, behind its response, so the loader's poll succeeds and adds the
-- second of 2 to the counter, modulo 2^32, and the loader waits no more.
pub poll_response-ipi_irq_handler :
    (m : World PlmCall Module) (w : World MetalCall Pointers)
    → let counter = m.globals.a72_counter in
      let m' = (poll_response (polling counter w) m).1 in
      (m'.globals.a72_counter ≡ (counter + 2) % 2 ^ 32)
      × (m'.globals.waiting ≡ false)
      × (m'.globals.r5_counter ≡ m.globals.r5_counter)
unfolding poll_response a72_answer a72_value acknowledged ipi_irq_handler buffer_word
poll_response-ipi_irq_handler m w = ground arith

-- The R5 receives this counter: the error flag stays clear, the flag of a received message is set, and
-- each call succeeds.
abbrev pub r5_env : (counter : ℕ) → Env R5.MailboxCall
r5_env counter = record {
  status = λ _ _. success;
  value = λ _ c. elim c [ R5.read_recv_done ↦ 1 | _ ↦ 0 ];
  words = λ _ _. counter ∷ 0 ∷ [];
}

-- The command last sent to the loader, as its two words.
unfoldable pub last_command : List R5.MailboxCall → ℕ × ℕ
last_command [] = (0, 0)
last_command (R5.send_request word payload ∷ l) = (word, payload)
last_command (c ∷ l) = last_command l

-- Where each of its calls succeeds, no error is flagged and the flag of a received message is set: after a
-- first pass, the R5's next pass receives the loader's counter, and its command makes `ProcessCmd` set
-- that counter, for the R5, to 2 more modulo 2^32; the R5 goes on.
pub pass-process_cmd :
    (fuel : ℕ) (m : Module) (w : World R5.MailboxCall R5.Buffer)
    → w.globals.request0 ≡ R5.command_word
    → let (r, w') = R5.pass (suc fuel) (r5_env m.r5_counter) w in
      let (word, payload) = last_command w'.log in
      let (response, m') = process_cmd word payload m in
      (r ≡ ok R5.go_on)
      × (w'.globals.request0 ≡ R5.command_word)
      × (m'.r5_counter ≡ (m.r5_counter + 2) % 2 ^ 32)
      × (m'.a72_counter ≡ m.a72_counter)
      × (response ≡ some m'.r5_counter)
unfolding process_cmd last_command R5.pass R5.receive R5.wait_flags R5.send_back
pass-process_cmd fuel m w h = ground (arith, h)
