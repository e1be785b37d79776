-- ===== src/Dma/Loopback/Machine.antt =====
-- The receiving machine, left to itself, against `rx_thread` of Dma/Threads.
use software_prototypes.Base.{
  ℕ, suc, zero, ◌≡◌, ◌≢◌, ◌⊎◌, inl, inr, refl, sym, ap, ◌∙◌, true, false, Bool-cases, List, ◌∷◌,
  leb, ◌+◌, ◌-◌, ◌*◌, ◌<◌, ◌≤◌, if◌then◌else◌, arith,
}
use software_prototypes.Machine.{success, Env, World, ok}
use software_prototypes.Dma.Shared.{buffer_increment}
use software_prototypes.Dma.Threads.{
  ThreadCall, set_length, start, finish, rx_start_loop, rx_next, rx_restart, rx_loop, rx_thread,
}
use software_prototypes.Dma.Threads.Receive.{fresh, max1, rx_thread-loop, rx_thread_done}
use software_prototypes.Dma.Loopback.{RxAt, Rx, rx_at, begun}

-- So many steps at a fixed number of transfers.
unfoldable pub rx_run : (steps num : ℕ) → Rx → Rx
rx_run zero num r = r
rx_run (suc n) num r = rx_run n num (rx_at r.at num r)

rx_run_done :
    (n num b p c : ℕ) (l : List ThreadCall)
    → let r : Rx = record {
      at = RxAt.done;
      buffer_id = b;
      in_progress_count = p;
      rx_counter = c;
      log = l;
    } in
      rx_run n num r ≡ r
unfolding rx_run rx_at
rx_run_done zero num b p c l = refl
rx_run_done (suc n) num b p c l = rx_run_done n num b p c l

-- Before the FINISH_XFER of a turn.
abbrev turning : (b p c : ℕ) → List ThreadCall → Rx
turning b p c l = record {
  at = RxAt.finishing;
  buffer_id = b;
  in_progress_count = p;
  rx_counter = c;
  log = l;
}

-- What a turn leaves in progress, and its calls.
abbrev left : (num p c : ℕ) → ℕ
left num p c = if leb num (suc c + (p - 1)) then p - 1 else suc (p - 1)

abbrev called : (num b p c : ℕ) → List ThreadCall → List ThreadCall
called num b p c l = if leb num (suc c + (p - 1)) then finish b ∷ l else start b ∷ finish b ∷ l

rx_run_turn :
    (n num b p c : ℕ) (l : List ThreadCall)
    → leb num (suc c) ≡ false
    → rx_run (suc (suc (suc n))) num (turning b p c l)
      ≡ rx_run n num (turning (rx_next b) (left num p c) (suc c) (called num b p c l))
unfolding rx_run rx_at
rx_run_turn n num b p c l h = ground (arith, h)

rx_run_last :
    (n num b p c : ℕ) (l : List ThreadCall)
    → leb num (suc c) ≡ true
    → let r = rx_run (suc (suc (suc n))) num (turning b p c l) in
      (r.at ≡ RxAt.done) × (r.log ≡ finish b ∷ l)
unfolding rx_run rx_at
rx_run_last n num b p c l h =
    ground (arith, h, rx_run_done (suc n) num b (p - 1) (suc c) (finish b ∷ l))

suc_run : (k m num : ℕ) (r : Rx) → rx_run (suc k + m) num r ≡ rx_run (suc (k + m)) num r
suc_run k m num r = ap (λ (i : ℕ). rx_run i num r) (omega arith)

three : (n : ℕ) → 3 * suc n ≡ suc (suc (suc (3 * n)))
three n = omega arith

module _ (e : Env ThreadCall)
    (fine : (l : List ThreadCall) (b : ℕ) → e.status l (finish b) ≡ success) where
  rx_loop_last :
      (n b p c : ℕ) (w : World ThreadCall ℕ)
      → leb w.globals (suc c) ≡ true
      → rx_loop (suc n) b p c e w ≡ (ok tt, record w { log = finish b ∷ w.log })
  unfolding rx_loop
  rx_loop_last n b p c w h = ground (arith, h, fine w.log b)

  rx_loop_turn :
      (n b p c : ℕ) (w : World ThreadCall ℕ)
      → leb w.globals (suc c) ≡ false
      → rx_loop (suc n) b p c e w
        ≡ rx_loop n
            (rx_next b)
            (left w.globals p c)
            (suc c)
            e
            (record w { log = called w.globals b p c w.log })
  unfolding rx_loop rx_restart
  rx_loop_turn n b p c w h = ground (arith, h, fine w.log b)

  no_fuel : (b p c : ℕ) (w : World ThreadCall ℕ) → (rx_loop zero b p c e w).0 ≢ ok tt
  unfolding rx_loop
  no_fuel b p c w = λ h. ground (arith, h)

  rx_loop_run :
      (n b p c : ℕ) (w : World ThreadCall ℕ)
      → (rx_loop n b p c e w).0 ≡ ok tt
      → let r = rx_run (3 * n) w.globals (turning b p c w.log) in
        (r.at ≡ RxAt.done) × (r.log ≡ (rx_loop n b p c e w).1.log)
  rx_loop_run zero b p c w h = absurd (no_fuel b p c w h)
  rx_loop_run (suc n) b p c w h = elim (Bool-cases (leb w.globals (suc c))) [
    | inl y ↦ rw (three n, rx_loop_last n b p c w y) (rx_run_last (3 * n) w.globals b p c w.log y)
    | inr y ↦
        let turn = rx_loop_turn n b p c w y in
        let w' : World ThreadCall ℕ = record w { log = called w.globals b p c w.log } in
        let ih =
          rx_loop_run n (rx_next b) (left w.globals p c) (suc c) w'
            (sym (ap (λ q. q.0) turn) ∙ h) in
        rw (three n, turn, rx_run_turn (3 * n) w.globals b p c w.log y) ih
  ]

  -- In the first loop.
  abbrev beginning : (b p : ℕ) → List ThreadCall → Rx
  beginning b p l = record {
    at = RxAt.starting;
    buffer_id = b;
    in_progress_count = p;
    rx_counter = 0;
    log = l;
  }

  abbrev Starts : (n b p : ℕ) → World ThreadCall ℕ → Type 0
  Starts n b p w =
      (k : ℕ) × (q : ℕ) × (l : List ThreadCall) × (rx_start_loop (suc n) b p e w
        ≡ (ok q, record w { log = l }))
      × ((m : ℕ)
          → rx_run (k + m) w.globals (beginning b p w.log) ≡ rx_run m w.globals (turning 0 q 0 l))

  abbrev first_log : (b : ℕ) → World ThreadCall ℕ → List ThreadCall
  first_log b w = start b ∷ set_length b ∷ w.log

  rx_start_loop_ends :
      (n b p : ℕ) (w : World ThreadCall ℕ)
      → (leb w.globals (suc p) ≡ true) ⊎ (n ≡ 0)
      → rx_start_loop (suc n) b p e w ≡ (ok (suc p), record w { log = first_log b w })
  unfolding rx_start_loop
  rx_start_loop_ends zero b p w h = ground arith
  rx_start_loop_ends (suc n) b p w h = ground (arith, h)

  rx_start_loop_more :
      (n b p : ℕ) (w : World ThreadCall ℕ)
      → leb w.globals (suc p) ≡ false
      → rx_start_loop (suc n) b p e w
        ≡ rx_start_loop n (b + buffer_increment) (suc p) e (record w { log = first_log b w })
  unfolding rx_start_loop
  rx_start_loop_more n b p w h = ground (arith, h)

  rx_run_starts_suc :
      (m num b p : ℕ) (l : List ThreadCall)
      → (leb num (suc p) ≡ true) ⊎ (b ≡ 31)
      → rx_run (suc m) num (beginning b p l)
        ≡ rx_run m num (turning 0 (suc p) 0 (start b ∷ set_length b ∷ l))
  unfolding rx_run rx_at
  rx_run_starts_suc m num b p l h = ground (arith, h)

  rx_run_starts :
      (m num b p : ℕ) (l : List ThreadCall)
      → (leb num (suc p) ≡ true) ⊎ (b ≡ 31)
      → rx_run (1 + m) num (beginning b p l)
        ≡ rx_run m num (turning 0 (suc p) 0 (start b ∷ set_length b ∷ l))
  rx_run_starts m num b p l h =
      let one : 1 + m ≡ suc m = omega arith in rw one (rx_run_starts_suc m num b p l h)

  rx_run_goes_on :
      (m num b p : ℕ) (l : List ThreadCall)
      → leb num (suc p) ≡ false
      → b < 31
      → rx_run (suc m) num (beginning b p l)
        ≡ rx_run m num (beginning (b + buffer_increment) (suc p) (start b ∷ set_length b ∷ l))
  unfolding rx_run rx_at
  rx_run_goes_on m num b p l h i = ground (arith, h, i)

  rx_start_run : (n b p : ℕ) (w : World ThreadCall ℕ) → b + suc n ≡ 32 → Starts n b p w
  rx_start_run zero b p w h = (
    1,
    suc p,
    first_log b w,
    rx_start_loop_ends zero b p w (inr refl),
    λ m. rx_run_starts m w.globals b p w.log (inr (omega (arith, h))),
  )
  rx_start_run (suc n) b p w h = elim (Bool-cases (leb w.globals (suc p))) [
    | inl y ↦ (
      1,
      suc p,
      first_log b w,
      rx_start_loop_ends (suc n) b p w (inl y),
      λ m. rx_run_starts m w.globals b p w.log (inl y),
    )
    | inr y ↦
        let w' : World ThreadCall ℕ = record w { log = first_log b w } in
        let (k, q, l, loop, run) =
          rx_start_run n (b + buffer_increment) (suc p) w' (omega (arith, h)) in
        (
          suc k,
          q,
          l,
          rx_start_loop_more (suc n) b p w y ∙ loop,
          λ m.
              suc_run k m w.globals (beginning b p w.log)
              ∙ rx_run_goes_on (k + m) w.globals b p w.log y (omega (arith, h))
              ∙ run m,
        )
  ]

  -- Where every transfer ends with PROXY_NO_ERROR and the fuel covers the transfers: at a fixed number of
  -- transfers, some number of steps of the machine ends it, with exactly the calls of `rx_thread`.
  pub rx_run-rx_thread :
      (fuel num : ℕ)
      → max1 num ≤ fuel
      → (k : ℕ) × (let r = rx_run k num (begun num).rx in
          (r.at ≡ RxAt.done) × (r.log ≡ (rx_thread fuel e (fresh num)).1.log))
  rx_run-rx_thread fuel num h =
      let w = fresh num in
      let (k, q, l, loop, run) = rx_start_run 31 0 0 w (omega arith) in
      let w' : World ThreadCall ℕ = record { log = l; globals = num } in
      let same : rx_thread fuel e w ≡ rx_loop fuel 0 q 0 e w' =
        rx_thread-loop e fuel q w (ap (λ x. x.0) loop) ∙ ap (λ x. rx_loop fuel 0 q 0 e x.1) loop in
      let ended = (rx_thread_done e fuel num fine h).0 in
      let last = rx_loop_run fuel 0 q 0 w' (sym (ap (λ x. x.0) same) ∙ ended) in
      (k + 3 * fuel, rw (same, run (3 * fuel)) last)
