-- ===== src/Dma/Threads/Receive.antt =====
-- `rx_thread`: how many transfers it starts and finishes, and on which buffers.
use software_prototypes.Base.{
  ℕ, suc, zero, ◌≡◌, ◌⊎◌, inl, inr, refl, ◌∙◌, true, false, Bool-cases, leb, List, [], ◌∷◌, ◌+◌,
  ◌%◌, ◌<◌, ◌≤◌, arith, if◌then◌else◌,
}
use software_prototypes.Machine.{success, Env, World, ok}
use software_prototypes.Dma.Shared.{rx_buffer_count, buffer_increment}
use software_prototypes.Dma.Threads.{
  ThreadCall, set_length, start, finish, fill_first, fill, read_stop, rx_start_loop, rx_next,
  rx_restart, rx_loop, rx_thread,
}

unfoldable pub starts : List ThreadCall → ℕ
starts [] = 0
starts (start b ∷ l) = suc (starts l)
starts (finish b ∷ l) = starts l
starts (set_length b ∷ l) = starts l
starts (fill_first b n ∷ l) = starts l
starts (fill b n ∷ l) = starts l
starts (read_stop ∷ l) = starts l

unfoldable pub finishes : List ThreadCall → ℕ
finishes [] = 0
finishes (finish b ∷ l) = suc (finishes l)
finishes (start b ∷ l) = finishes l
finishes (set_length b ∷ l) = finishes l
finishes (fill_first b n ∷ l) = finishes l
finishes (fill b n ∷ l) = finishes l
finishes (read_stop ∷ l) = finishes l

-- The buffers are started and finished in turn, so that a finish is for the oldest start, and a
-- buffer is started only while it is not in progress.
unfoldable pub InTurn : List ThreadCall → Type 0
InTurn [] = Unit
InTurn (start b ∷ l) =
    (b ≡ starts l % rx_buffer_count) × (starts l < finishes l + rx_buffer_count) × InTurn l
InTurn (finish b ∷ l) = (b ≡ finishes l % rx_buffer_count) × (finishes l < starts l) × InTurn l
InTurn (set_length b ∷ l) = InTurn l
InTurn (fill_first b n ∷ l) = InTurn l
InTurn (fill b n ∷ l) = InTurn l
InTurn (read_stop ∷ l) = InTurn l

abbrev pub max1 : ℕ → ℕ
max1 zero = 1
max1 (suc n) = suc n

-- Between two turns of the second loop, at this number of transfers.
pub record Turning (num buffer_id p c : ℕ) (l : List ThreadCall) : Type 0 where
  pub at_buffer : buffer_id ≡ c % rx_buffer_count
  pub some_left : 1 ≤ p
  pub within : p ≤ rx_buffer_count
  pub total : c + p ≤ max1 num
  pub full : (p ≡ rx_buffer_count) ⊎ (c + p ≡ max1 num)
  pub started : starts l ≡ c + p
  pub finished : finishes l ≡ c
  pub turns : InTurn l

-- No call was made yet.
abbrev pub fresh : ℕ → World ThreadCall ℕ
fresh num = record { log = []; globals = num }

module _ (e : Env ThreadCall) where
  abbrev restarted : (num p c : ℕ) → ℕ
  restarted num p c = if leb num (c + p) then p else suc p

  rx_restart_lem :
      (b p c : ℕ) (w : World ThreadCall ℕ)
      → Turning w.globals b (suc p) c w.log
      → suc c < w.globals
      → let l = finish b ∷ w.log in
        let (r, w') = rx_restart b p (suc c) e (record w { log = l }) in
        (w'.globals ≡ w.globals)
        × (r ≡ ok (restarted w.globals p (suc c)))
        × Turning w.globals (rx_next b) (restarted w.globals p (suc c)) (suc c) w'.log
  unfolding rx_restart starts finishes InTurn rx_next
  rx_restart_lem b p c w t h = ground arith

  -- All transfers are done.
  pub record Done (num : ℕ) (l : List ThreadCall) : Type 0 where
    pub all_started : starts l ≡ max1 num
    pub all_finished : finishes l ≡ max1 num
    pub in_turn : InTurn l

  module _ (fine : (l : List ThreadCall) (b : ℕ) → e.status l (finish b) ≡ success) where
    rx_loop_ends :
        (n b p c : ℕ) (w : World ThreadCall ℕ)
        → leb w.globals (suc c) ≡ true
        → rx_loop (suc n) b p c e w ≡ (ok tt, record w { log = finish b ∷ w.log })
    unfolding rx_loop
    rx_loop_ends n b p c w h = ground (arith, fine w.log b)

    -- The world between the finish of a buffer and its restart.
    abbrev finished_world : ℕ → World ThreadCall ℕ → World ThreadCall ℕ
    finished_world b w = record w { log = finish b ∷ w.log }

    rx_loop_more :
        (n b p c p' : ℕ) (w : World ThreadCall ℕ)
        → leb w.globals (suc c) ≡ false
        → (rx_restart b p (suc c) e (finished_world b w)).0 ≡ ok p'
        → rx_loop (suc n) b (suc p) c e w
          ≡ rx_loop n (rx_next b) p' (suc c) e (rx_restart b p (suc c) e (finished_world b w)).1
    unfolding rx_loop
    rx_loop_more n b p c p' w h r = ground (arith, fine w.log b)

    rx_loop-Done :
        (b p c : ℕ) (w : World ThreadCall ℕ)
        → Turning w.globals b (suc p) c w.log
        → leb w.globals (suc c) ≡ true
        → Done w.globals (finish b ∷ w.log)
    unfolding starts finishes InTurn
    rx_loop-Done b p c w t h = ground arith

    rx_loop_lem :
        (n b p c num : ℕ) (w : World ThreadCall ℕ)
        → w.globals ≡ num
        → Turning num b p c w.log
        → max1 num ≤ c + n
        → let (r, w') = rx_loop n b p c e w in (r ≡ ok tt) × Done num w'.log
    rx_loop_lem zero b p c num w s t h = absurd (omega (arith, t.some_left, t.total))
    rx_loop_lem (suc n) b zero c num w s t h = absurd (omega (arith, t.some_left))
    rx_loop_lem (suc n) b (suc p) c num w s t h =
        let u : Turning w.globals b (suc p) c w.log = rw s t in
        elim (Bool-cases (leb w.globals (suc c))) [
          | inl y ↦ rw (rx_loop_ends n b (suc p) c w y) (refl, rw (← s) (rx_loop-Done b p c w u y))
          | inr y ↦
              let (g, r, v) = rx_restart_lem b p c w u (ground (arith, y)) in
              let ended = rx_restart b p (suc c) e (finished_world b w) in
              rw (rx_loop_more n b p c _ w y r) (
                rx_loop_lem n (rx_next b) (restarted w.globals p (suc c)) (suc c) num ended.1
                  (g ∙ s) (rw (← s) v) (omega (arith, h)))
        ]

  -- Between two turns of the first loop, with p transfers started.
  record Starting (num left b p : ℕ) (l : List ThreadCall) : Type 0 where
    at_buffer : b ≡ p
    room : p + left ≡ rx_buffer_count
    few : p < max1 num
    started : starts l ≡ p
    finished : finishes l ≡ 0
    turns : InTurn l

  -- How many transfers the first loop starts.
  abbrev first_ones : ℕ → ℕ
  first_ones num = if leb num rx_buffer_count then max1 num else rx_buffer_count

  rx_start_loop_lem :
      (n b p num : ℕ) (w : World ThreadCall ℕ)
      → w.globals ≡ num
      → Starting num n b p w.log
      → let (r, w') = rx_start_loop n b p e w in
        (w'.globals ≡ num) × (r ≡ ok (first_ones num)) × Turning num 0 (first_ones num) 0 w'.log
  unfolding rx_start_loop starts finishes InTurn
  rx_start_loop_lem zero b p num w s t = ground (arith, t)
  rx_start_loop_lem (suc n) b p num w s t =
      let l = start b ∷ set_length b ∷ w.log in
      ground
        (arith, t, rx_start_loop_lem n (b + buffer_increment) (suc p) num (record w { log = l }))

  pub rx_thread-loop :
      (fuel p : ℕ) (w : World ThreadCall ℕ)
      → (rx_start_loop 32 0 0 e w).0 ≡ ok p
      → rx_thread fuel e w ≡ rx_loop fuel 0 p 0 e (rx_start_loop 32 0 0 e w).1
  unfolding rx_thread
  rx_thread-loop fuel p w r = ground arith

  starting : (num : ℕ) → Starting num 32 0 0 []
  unfolding starts finishes InTurn
  starting num = ground arith

  -- When every transfer ends with PROXY_NO_ERROR, no transfer is in the log before, and the fuel is
  -- at least the number of transfers and 1: `rx_thread` returns with exactly as many transfers
  -- started as it was asked for, at least one, and all of them finished. The buffers are started and
  -- finished in turn, each started only while it is not in progress.
  pub rx_thread_done :
      (fuel num : ℕ)
      → ((l : List ThreadCall) (b : ℕ) → e.status l (finish b) ≡ success)
      → max1 num ≤ fuel
      → let (r, w') = rx_thread fuel e (record { log = []; globals = num }) in
        (r ≡ ok tt) × (starts w'.log ≡ max1 num) × (finishes w'.log ≡ max1 num) × InTurn w'.log
  rx_thread_done fuel num fine h =
      let w0 = fresh num in
      let (g, r, t) = rx_start_loop_lem 32 0 0 num w0 refl (starting num) in
      let (o, d) = rx_loop_lem fine fuel 0 _ 0 num _ g t (omega (arith, h)) in
      rw (rx_thread-loop fuel _ w0 r) (o, d.all_started, d.all_finished, d.in_turn)
