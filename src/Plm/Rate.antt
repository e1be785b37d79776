-- ===== src/Plm/Rate.antt =====
-- How often the user module of plm-r5-a72-ipi/plm/user_ipi_demo.c sends, and what it counts.
use software_prototypes.Base.{
  ℕ, suc, zero, ◌≡◌, refl, ap, Bool, List, [], ◌∷◌, ◌==◌, ◌+◌, ◌<◌, ◌-◌, ◌/◌, ◌%◌, ◌^◌, some,
  if◌then◌else◌, replicate, ◌++◌, arith,
}
use software_prototypes.Word.{add32}
use software_prototypes.Machine.{Env, World, ok}
use software_prototypes.Plm.{
  Module, r5, a72, PlmCall, ipi_write, ipi_trigger, ipi_poll_for_ack, ipi_read, process_cmd,
  send_message, poll_response, send_messages, user_task, user_tasks,
}

-- The words written for the R5, newest first, and the number of its triggers.
unfoldable pub words_to_r5 : List PlmCall → List ℕ
words_to_r5 [] = []
words_to_r5 (ipi_write r5 word ∷ l) = word ∷ words_to_r5 l
words_to_r5 (ipi_write a72 word ∷ l) = words_to_r5 l
words_to_r5 (ipi_trigger t ∷ l) = words_to_r5 l
words_to_r5 (ipi_poll_for_ack t ∷ l) = words_to_r5 l
words_to_r5 (ipi_read t ∷ l) = words_to_r5 l

unfoldable pub triggers_of_r5 : List PlmCall → ℕ
triggers_of_r5 [] = 0
triggers_of_r5 (ipi_trigger r5 ∷ l) = suc (triggers_of_r5 l)
triggers_of_r5 (ipi_trigger a72 ∷ l) = triggers_of_r5 l
triggers_of_r5 (ipi_write t word ∷ l) = triggers_of_r5 l
triggers_of_r5 (ipi_poll_for_ack t ∷ l) = triggers_of_r5 l
triggers_of_r5 (ipi_read t ∷ l) = triggers_of_r5 l

-- What a period changes of what concerns the R5.
pub record Period (w w' : World PlmCall Module) : Type 0 where
  pub counter : w'.globals.r5_counter ≡ w.globals.r5_counter
  pub count : w'.globals.execution_count ≡ add32 w.globals.execution_count 1
  pub words : words_to_r5 w'.log ≡ (
      if w.globals.execution_count % 10 == 0
      then w.globals.r5_counter ∷ words_to_r5 w.log
      else words_to_r5 w.log)
  pub triggers : triggers_of_r5 w'.log ≡ (
      if w.globals.execution_count % 10 == 0
      then suc (triggers_of_r5 w.log)
      else triggers_of_r5 w.log)

-- The multiples of 10 among the n numbers from c on.
abbrev pub tens : (c n : ℕ) → ℕ
tens c n = (c + n + 9) / 10 - (c + 9) / 10

tens_step :
    (c n : ℕ) → tens c (suc n) ≡ (if c % 10 == 0 then suc (tens (suc c) n) else tens (suc c) n)
tens_step c n = ground arith

replicate-append : (k a : ℕ) (l : List ℕ) → replicate k a ++ (a ∷ l) ≡ replicate (suc k) a ++ l
replicate-append zero a l = refl
replicate-append (suc k) a l = ap (λ m. a ∷ m) (replicate-append k a l)

module _ (unidirect : Bool) (e : Env PlmCall) where
  pub user_task-ok : (w : World PlmCall Module) → (user_task unidirect e w).0 ≡ ok tt
  unfolding user_task send_messages send_message poll_response
  user_task-ok w = ground arith

  pub user_task-Period : (w : World PlmCall Module) → Period w (user_task unidirect e w).1
  unfolding user_task send_messages send_message poll_response words_to_r5 triggers_of_r5
  user_task-Period w = ground arith

  user_tasks_step :
      (n : ℕ) (w : World PlmCall Module)
      → user_tasks unidirect (suc n) e w ≡ user_tasks unidirect n e (user_task unidirect e w).1
  unfolding user_tasks
  user_tasks_step n w = ground (arith, user_task-ok w)

  -- After n periods in which the count stays an `int`: the task has returned each time and counted them, and among the n numbers from
  -- the count before on, as many messages as there are multiples of 10 were written for the R5 and
  -- triggered, each with the R5's trip counter.
  user_tasks_lem :
      (n : ℕ) (w : World PlmCall Module)
      → w.globals.execution_count + n < 2 ^ 31
      → let (r, w') = user_tasks unidirect n e w in
        let sent = tens w.globals.execution_count n in
        (r ≡ ok tt)
        × (w'.globals.execution_count ≡ w.globals.execution_count + n)
        × (triggers_of_r5 w'.log ≡ triggers_of_r5 w.log + sent)
        × (words_to_r5 w'.log ≡ replicate sent w.globals.r5_counter ++ words_to_r5 w.log)
  unfolding user_tasks
  user_tasks_lem zero w b = ground arith
  user_tasks_lem (suc n) w b =
      let w1 = (user_task unidirect e w).1 in
      let p = user_task-Period w in
      let c = w.globals.execution_count in
      ground (
        arith,
        user_task-ok w,
        p,
        user_tasks_lem n w1 (ground (arith, p, b)),
        b,
        tens_step c n,
        replicate-append (tens (suc c) n) w.globals.r5_counter (words_to_r5 w.log),
      )

  -- When the R5's command comes in before a period in which messages are sent, the response to it and
  -- the word of the next message for the R5 are both the payload word plus 1, modulo 2^32.
  process_cmd-user_task :
      (cmd_id payload : ℕ) (w : World PlmCall Module)
      → cmd_id % 256 ≡ 0
      → w.globals.execution_count % 10 ≡ 0
      → let (response, m) = process_cmd cmd_id payload w.globals in
        let w' = (user_task unidirect e (record w { globals = m })).1 in
        let count = (payload + 1) % 2 ^ 32 in
        (response ≡ some count)
        × (w'.globals.r5_counter ≡ count)
        × (words_to_r5 w'.log ≡ count ∷ words_to_r5 w.log)
  unfolding process_cmd
  process_cmd-user_task cmd_id payload w h d =
      let m = (process_cmd cmd_id payload w.globals).1 in
      ground (arith, h, d, user_task-Period (record w { globals = m }))
