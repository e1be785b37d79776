-- ===== src/Dma/Threads/Transmit.antt =====
-- `tx_thread`: that it ends, also after an early stop, and leaves no transfer in progress.
use software_prototypes.Base.{
  ap, ◌∙◌, ℕ, suc, zero, ◌≡◌, refl, Bool, true, false, Bool-cases, inl, inr, leb, not, ◌&&◌, ◌==◌,
  List, ◌∷◌, ◌+◌, ◌<◌, ◌≤◌, arith, if◌then◌else◌,
}
use software_prototypes.Machine.{Env, World, ok}
use software_prototypes.Dma.Shared.{rx_buffer_count}
use software_prototypes.Dma.Threads.{
  ThreadCall, finish, read_stop, tx_start_loop, tx_check_stop, tx_next, tx_restart, tx_loop,
  tx_thread,
}
use software_prototypes.Dma.Threads.Receive.{starts, finishes, max1, fresh}

module _ (verify : Bool) (e : Env ThreadCall) where
  -- Between two turns of the second loop: one transfer is in progress, on buffer 0.
  record Sending (num total n c : ℕ) (stopping : Bool) (l : List ThreadCall) : Type 0 where
    more : c < max1 num
    bound : max1 num + (if stopping then 0 else 31) ≤ total
    fuel : total ≤ c + n
    started : starts l ≡ suc c
    finished : finishes l ≡ c

  -- `stop_in_progress` and the number of transfers after a read of `stop`.
  abbrev pub stopped_by : List ThreadCall → Bool → Bool
  stopped_by l stopping = if not (e.value l read_stop == 0) then true else stopping

  abbrev pub number_after : List ThreadCall → (stopping : Bool) (c num : ℕ) → ℕ
  number_after l stopping c num =
      if not (e.value l read_stop == 0) && not stopping then c + rx_buffer_count else num

  -- The world behind the read.
  abbrev pub read_world : (c : ℕ) → Bool → World ThreadCall ℕ → World ThreadCall ℕ
  read_world c stopping w = record {
    log = read_stop ∷ w.log;
    globals = number_after w.log stopping c w.globals;
  }

  pub tx_check_stop_lem :
      (c : ℕ) (stopping : Bool) (w : World ThreadCall ℕ)
      → tx_check_stop verify c stopping e w
        ≡ (ok (stopped_by w.log stopping), read_world c stopping w)
  unfolding tx_check_stop
  tx_check_stop_lem c stopping w = ground arith

  tx_restart_lem :
      (c : ℕ) (w : World ThreadCall ℕ)
      → c < w.globals
      → let (r, w') = tx_restart verify 0 0 c e w in
        (r ≡ ok 1)
        × (w'.globals ≡ w.globals)
        × (starts w'.log ≡ suc (starts w.log))
        × (finishes w'.log ≡ finishes w.log)
  unfolding tx_restart starts finishes
  tx_restart_lem c w h = ground arith

  tx_loop_ends :
      (n c : ℕ) (stopping : Bool) (w : World ThreadCall ℕ)
      → leb w.globals (suc c) ≡ true
      → tx_loop verify (suc n) 0 1 c stopping e w ≡ (ok tt, record w { log = finish 0 ∷ w.log })
  unfolding tx_loop
  tx_loop_ends n c stopping w h = ground arith

  -- The worlds between the finish of a transfer and the read of `stop`, and then the restart.
  abbrev checked_world : ℕ → Bool → World ThreadCall ℕ → World ThreadCall ℕ
  checked_world c stopping w = read_world (suc c) stopping (record w { log = finish 0 ∷ w.log })

  abbrev restarted_world : ℕ → Bool → World ThreadCall ℕ → World ThreadCall ℕ
  restarted_world c stopping w = (tx_restart verify 0 0 (suc c) e (checked_world c stopping w)).1

  tx_loop_more :
      (n c : ℕ) (stopping : Bool) (w : World ThreadCall ℕ)
      → leb w.globals (suc c) ≡ false
      → tx_loop verify (suc n) 0 1 c stopping e w
        ≡ tx_loop verify n 0 1
            (suc c)
            (stopped_by (finish 0 ∷ w.log) stopping)
            e
            (restarted_world c stopping w)
  unfolding tx_loop tx_next
  tx_loop_more n c stopping w h = ground (
    arith,
    tx_check_stop_lem (suc c) stopping (record w { log = finish 0 ∷ w.log }),
    tx_restart_lem (suc c) (checked_world c stopping w),
  )

  Sending_lem :
      (n c num total : ℕ) (stopping : Bool) (w : World ThreadCall ℕ)
      → w.globals ≡ num
      → Sending num total (suc n) c stopping w.log
      → leb num (suc c) ≡ false
      → let w' = restarted_world c stopping w in
        Sending w'.globals total n (suc c) (stopped_by (finish 0 ∷ w.log) stopping) w'.log
  unfolding starts finishes
  Sending_lem n c num total stopping w g s h =
      ground (arith, s, tx_restart_lem (suc c) (checked_world c stopping w))

  -- No transfer is left in progress, and there are not more than this many.
  record Sent (total : ℕ) (l : List ThreadCall) : Type 0 where
    none_left : starts l ≡ finishes l
    at_most : finishes l ≤ total

  tx_loop_lem :
      (n c num total : ℕ) (stopping : Bool) (w : World ThreadCall ℕ)
      → w.globals ≡ num
      → Sending num total n c stopping w.log
      → let (r, w') = tx_loop verify n 0 1 c stopping e w in (r ≡ ok tt) × Sent total w'.log
  unfolding starts finishes
  tx_loop_lem zero c num total stopping w g s = absurd (ground (arith, s))
  tx_loop_lem (suc n) c num total stopping w g s = elim (Bool-cases (leb w.globals (suc c))) [
    | inl y ↦ rw (tx_loop_ends n c stopping w y) (refl, ground (arith, s))
    | inr y ↦ rw (tx_loop_more n c stopping w y) (
        tx_loop_lem n (suc c) _ total _ _ refl
          (Sending_lem n c num total stopping w g s (rw (← g) y)))
  ]

  tx_start_loop_lem :
      (num : ℕ)
      → let (r, w') = tx_start_loop verify 1 0 0 e (fresh num) in
        (w'.globals ≡ num) × (r ≡ ok 1) × (starts w'.log ≡ 1) × (finishes w'.log ≡ 0)
  unfolding tx_start_loop starts finishes
  tx_start_loop_lem num = ground arith

  tx_thread-loop :
      (fuel : ℕ) (w : World ThreadCall ℕ)
      → (tx_start_loop verify 1 0 0 e w).0 ≡ ok 1
      → tx_thread verify fuel e w
        ≡ tx_loop verify fuel 0 1 0 false e (tx_start_loop verify 1 0 0 e w).1
  unfolding tx_thread
  tx_thread-loop fuel w r = ground arith

  -- Whatever the status of the transfers and whenever `stop` is set, when no transfer is in the log
  -- before and the fuel is at least 31 more than the number of transfers and 1: `tx_thread` returns,
  -- every transfer that it started is finished, and there are at most 31 more of them than it was
  -- asked for.
  pub tx_thread_done :
      (fuel num : ℕ)
      → max1 num + 31 ≤ fuel
      → let (r, w') = tx_thread verify fuel e (fresh num) in
        (r ≡ ok tt) × (starts w'.log ≡ finishes w'.log) × (finishes w'.log ≤ max1 num + 31)
  tx_thread_done fuel num h =
      let (g, r, a, b) = tx_start_loop_lem num in
      let begun = (tx_start_loop verify 1 0 0 e (fresh num)).1 in
      let (o, s) =
        tx_loop_lem fuel 0 num (max1 num + 31) false begun g (sending num fuel h _ a b) in
      rw (tx_thread-loop fuel (fresh num) r) (o, s.none_left, s.at_most)
    where
      sending :
          (num fuel : ℕ)
          → max1 num + 31 ≤ fuel
          → (l : List ThreadCall) → starts l ≡ 1
          → finishes l ≡ 0
          → Sending num (max1 num + 31) fuel 0 false l
      sending num fuel h l a b = ground arith

  module _ (never : (l : List ThreadCall) → e.value l read_stop ≡ 0) where
    unstopped_step :
        (n c : ℕ) (w : World ThreadCall ℕ)
        → leb w.globals (suc c) ≡ false
        → tx_loop verify (suc n) 0 1 c false e w
          ≡ tx_loop verify n 0 1 (suc c) false e (restarted_world c false w)
    unstopped_step n c w h =
        let same : stopped_by (finish 0 ∷ w.log) false ≡ false =
          ground (arith, never (finish 0 ∷ w.log)) in
        tx_loop_more n c false w h
        ∙ ap (λ s. tx_loop verify n 0 1 (suc c) s e (restarted_world c false w)) same

    restarted_world_lem :
        (c num : ℕ) (w : World ThreadCall ℕ)
        → w.globals ≡ num
        → leb num (suc c) ≡ false
        → let w' = restarted_world c false w in
          (w'.globals ≡ num)
          × (starts w'.log ≡ suc (starts w.log))
          × (finishes w'.log ≡ suc (finishes w.log))
    unfolding starts finishes
    restarted_world_lem c num w g h =
        ground (arith, never (finish 0 ∷ w.log), tx_restart_lem (suc c) (checked_world c false w))

    unstopped_lem :
        (n c num : ℕ) (w : World ThreadCall ℕ)
        → w.globals ≡ num
        → c < max1 num
        → max1 num ≤ c + n
        → starts w.log ≡ suc c
        → finishes w.log ≡ c
        → let (r, w') = tx_loop verify n 0 1 c false e w in
          (r ≡ ok tt) × (starts w'.log ≡ max1 num) × (finishes w'.log ≡ max1 num)
    unfolding starts finishes
    unstopped_lem zero c num w g m b s f = absurd (omega (arith, m, b))
    unstopped_lem (suc n) c num w g m b s f = elim (Bool-cases (leb w.globals (suc c))) [
      | inl y ↦ rw (tx_loop_ends n c false w y) (ground (arith, g, m, s, f, y))
      | inr y ↦
          let y' : leb num (suc c) ≡ false = rw (← g) y in
          let (g', s', f') = restarted_world_lem c num w g y' in
          rw (unstopped_step n c w y) (
            unstopped_lem n (suc c) num (restarted_world c false w) g' (ground (arith, y'))
              (omega (arith, b)) (s' ∙ ap suc s) (f' ∙ ap suc f))
    ]

    -- When `stop` is never set, no transfer is in the log before, and the fuel is at least the number of
    -- transfers and 1: `tx_thread` returns with exactly as many transfers started as it was asked for,
    -- at least one, and all of them finished.
    tx_thread_unstopped :
        (fuel num : ℕ)
        → max1 num ≤ fuel
        → let (r, w') = tx_thread verify fuel e (fresh num) in
          (r ≡ ok tt) × (starts w'.log ≡ max1 num) × (finishes w'.log ≡ max1 num)
    tx_thread_unstopped fuel num h =
        let (g, r, a, b) = tx_start_loop_lem num in
        let begun = (tx_start_loop verify 1 0 0 e (fresh num)).1 in
        rw (tx_thread-loop fuel (fresh num) r)
          (unstopped_lem fuel 0 num begun g (max1_pos num) (omega (arith, h)) a b)
      where
        max1_pos : (num : ℕ) → 0 < max1 num
        max1_pos num = ground arith
