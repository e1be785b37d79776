-- ===== src/Dma/Loopback/Data.antt =====
-- The first words that the looped-back transfers carry, which `rx_thread` compares with its counter where
-- the program is asked to verify.
use software_prototypes.Base.{
  ℕ, suc, ◌≡◌, inl, inr, true, Bool-cases, not, ◌&&◌, Option, none, some, List, [], ◌∷◌, ◌==◌, ltb,
  leb, ◌+◌, ◌<◌, ◌≤◌, if◌then◌else◌, arith,
}
use software_prototypes.Dma.Shared.{buffer_increment, tx_buffer_count}
use software_prototypes.Dma.Threads.{ThreadCall, set_length, start, fill_first, fill}
use software_prototypes.Dma.Threads.Receive.{starts, finishes, max1}
use software_prototypes.Dma.Loopback.{
  TxAt, RxAt, System, tx_at, interrupt, transmit, receive, step, Run, here, next,
}
use software_prototypes.Dma.Loopback.Facts.{RxFacts, TxFacts}
use software_prototypes.Dma.Loopback.Turns.{Run-TxSide, Run-RxSide}

-- The first word that a buffer was last filled with; 0 if it was not.
unfoldable pub filled_word : (b : ℕ) → List ThreadCall → ℕ
filled_word b [] = 0
filled_word b (fill_first c word ∷ l) = if c == b then word else filled_word b l
filled_word b (fill c word ∷ l) = if c == b then word else filled_word b l
filled_word b (c ∷ l) = filled_word b l

-- The first word of the transfer that was started behind k others.
unfoldable pub nth_sent : List ThreadCall → (k : ℕ) → Option ℕ
unfolding filled_word
nth_sent [] k = none
nth_sent (start b ∷ l) k = if starts l == k then some (filled_word b l) else nth_sent l k
nth_sent (c ∷ l) k = nth_sent l k

-- Each transfer carries its number.
abbrev Counted : List ThreadCall → Type 0
Counted l = (k : ℕ) → k < starts l → nth_sent l k ≡ some k

start-Counted :
    (b : ℕ) (l : List ThreadCall) → filled_word b l ≡ starts l → Counted l → Counted (start b ∷ l)
unfolding starts nth_sent
start-Counted b l w h k i = elim (Bool-cases (starts l == k)) [
  | inl y ↦ ground (arith, y, w)
  | inr y ↦ ground (arith, y, i, h k)
]

tx_at-Counted :
    (a : TxAt) (s : System)
    → TxFacts a (max1 s.num_transfers) s.tx.buffer_id s.tx.in_progress_count s.tx.counter s.tx.log
    → Counted s.tx.log
    → Counted (tx_at true a s).tx.log
unfolding tx_at filled_word nth_sent starts
tx_at-Counted TxAt.starting s f h =
    let t = s.tx in
    let l = fill_first t.buffer_id t.in_progress_count ∷ set_length t.buffer_id ∷ t.log in
    let w : filled_word t.buffer_id l ≡ starts l = ground (arith, f) in
    let sent = start-Counted t.buffer_id l w h in
    elim (Bool-cases (leb s.num_transfers (suc t.in_progress_count))) [
      | inl y ↦ rw y sent
      | inr y ↦ elim (Bool-cases (ltb (t.buffer_id + buffer_increment) tx_buffer_count)) [
        | inl z ↦ rw (y, z) sent
        | inr z ↦ rw (y, z) sent
      ]
    ]
tx_at-Counted TxAt.finishing s f h = h
tx_at-Counted TxAt.testing s f h = h
tx_at-Counted TxAt.stopping s f h = elim (Bool-cases (s.stop && not s.tx.stop_in_progress)) [
  | inl y ↦ rw y h
  | inr y ↦ rw y h
]
tx_at-Counted TxAt.restarting s f h =
    let t = s.tx in
    let l = fill t.buffer_id (0 + t.counter) ∷ t.log in
    let w : filled_word t.buffer_id l ≡ starts l = ground (arith, f) in
    elim (Bool-cases (leb s.num_transfers (t.counter + t.in_progress_count))) [
      | inl y ↦ rw y h
      | inr y ↦ rw y (start-Counted t.buffer_id l w h)
    ]
tx_at-Counted TxAt.done s f h = h

Run-Counted : {num0 n : ℕ} {s : System} → Run true num0 n s → Counted s.tx.log
unfolding step starts nth_sent
Run-Counted here = λ k i. ground (arith, i)
Run-Counted (next {n} {s} r interrupt a) = Run-Counted r
Run-Counted (next {n} {s} r receive a) = Run-Counted r
Run-Counted (next {n} {s} r transmit a) =
    tx_at-Counted s.tx.at s (Run-TxSide true r).good (Run-Counted r)

finished_testing :
    (a : RxAt) (m b p c : ℕ) (l : List ThreadCall)
    → RxFacts a m b p c l
    → a ≡ RxAt.testing
    → finishes l ≡ suc c
finished_testing RxAt.starting m b p c l f e = ground (arith, e)
finished_testing RxAt.finishing m b p c l f e = ground (arith, e)
finished_testing RxAt.testing m b p c l f e = ground (arith, f)
finished_testing RxAt.restarting m b p c l f e = ground (arith, e)
finished_testing RxAt.done m b p c l f e = ground (arith, e)

-- In every run in which the program verifies, until a stop raises the number of transfers above the one
-- asked for: when rx_thread has finished a transfer and not yet counted it, its counter is the position
-- of that receive, and the send of the same position carries the counter as its first word, the word
-- that rx_thread compares.
pub loopback_verifies :
    (num0 n : ℕ) (s : System)
    → Run true num0 n s
    → s.num_transfers ≤ num0
    → s.rx.at ≡ RxAt.testing
    → (finishes s.rx.log ≡ suc s.rx.rx_counter)
      × (nth_sent s.tx.log s.rx.rx_counter ≡ some s.rx.rx_counter)
loopback_verifies num0 n s r b e =
    let h = Run-RxSide true r b in
    let x = s.rx in
    let (f, _) = h.good in
    let m =
      finished_testing x.at (max1 s.num_transfers) x.buffer_id x.in_progress_count x.rx_counter
        x.log f e in
    (m, Run-Counted r x.rx_counter (omega (arith, h.sent, m)))
