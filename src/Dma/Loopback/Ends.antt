-- ===== src/Dma/Loopback/Ends.antt =====
-- How long the two threads on looped-back channels run, and where their runs end.
use software_prototypes.Base.{
  ℕ, suc, zero, ◌≡◌, ◌⊎◌, inl, inr, refl, Bool, ◌+◌, ◌-◌, ◌*◌, ◌<◌, ◌≤◌, if◌then◌else◌, arith,
}
use software_prototypes.Dma.Threads.Receive.{starts, finishes, max1}
use software_prototypes.Dma.Loopback.{
  TxAt, RxAt, Tx, Rx, System, rx_at, tx_at, Move, interrupt, transmit, receive, ReceiveCan,
  TransmitCan, Allowed, step, Run, here, next,
}
use software_prototypes.Dma.Loopback.Facts.{RxFacts, TxFacts}
use software_prototypes.Dma.Loopback.Turns.{
  TxSide, RxSide, Run-TxSide, Run-RxSide, step_number, tx_at_effect,
}

-- A bound on the steps left, by where a thread stands, of m transfers with c counted.
abbrev rx_rank : RxAt → (m p c : ℕ) → ℕ
rx_rank RxAt.starting m p c = 3 * m + 33 - p
rx_rank RxAt.finishing m p c = 3 * (m - c)
rx_rank RxAt.testing m p c = 3 * (m - c) - 1
rx_rank RxAt.restarting m p c = 3 * (m - c) + 1
rx_rank RxAt.done m p c = 0

abbrev tx_rank : TxAt → (m c : ℕ) → ℕ
tx_rank TxAt.starting m c = 4 * m + 1
tx_rank TxAt.finishing m c = 4 * (m - c)
tx_rank TxAt.testing m c = 4 * (m - c) + 3
tx_rank TxAt.stopping m c = 4 * (m - c) + 2
tx_rank TxAt.restarting m c = 4 * (m - c) + 1
tx_rank TxAt.done m c = 0

abbrev rx_rank_of : (num : ℕ) → Rx → ℕ
rx_rank_of num r = rx_rank r.at (max1 num) r.in_progress_count r.rx_counter

abbrev tx_rank_of : (num : ℕ) → Tx → ℕ
tx_rank_of num t = tx_rank t.at (max1 num) t.counter

abbrev rank : System → ℕ
rank s =
    tx_rank_of s.num_transfers s.tx + rx_rank_of s.num_transfers s.rx + (if s.stop then 0 else 1)

rx_rank_step :
    (a : RxAt) (s : System)
    → RxFacts a
        (max1 s.num_transfers)
        s.rx.buffer_id
        s.rx.in_progress_count
        s.rx.rx_counter
        s.rx.log
    → ReceiveCan a s
    → rx_rank_of s.num_transfers (rx_at a s.num_transfers s.rx)
      < rx_rank a (max1 s.num_transfers) s.rx.in_progress_count s.rx.rx_counter
unfolding rx_at
rx_rank_step RxAt.starting s f h = ground (arith, f)
rx_rank_step RxAt.finishing s f h = ground (arith, f)
rx_rank_step RxAt.testing s f h = ground (arith, f)
rx_rank_step RxAt.restarting s f h = ground (arith, f)
rx_rank_step RxAt.done s f h = absurd (h tt)

rx_rank_mono : (a : RxAt) (m m' p c : ℕ) → m' ≤ m → rx_rank a m' p c ≤ rx_rank a m p c
rx_rank_mono RxAt.starting m m' p c h = omega arith
rx_rank_mono RxAt.finishing m m' p c h = omega arith
rx_rank_mono RxAt.testing m m' p c h = omega arith
rx_rank_mono RxAt.restarting m m' p c h = omega arith
rx_rank_mono RxAt.done m m' p c h = omega arith

module _ (verify : Bool) where
  tx_rank_step :
      (a : TxAt) (s : System)
      → TxFacts a (max1 s.num_transfers) s.tx.buffer_id s.tx.in_progress_count s.tx.counter s.tx.log
      → TransmitCan a s
      → let s' = tx_at verify a s in
        s'.num_transfers ≤ s.num_transfers
        → tx_rank_of s'.num_transfers s'.tx < tx_rank a (max1 s.num_transfers) s.tx.counter
  unfolding tx_at
  tx_rank_step TxAt.starting s f h b = ground (arith, f)
  tx_rank_step TxAt.finishing s f h b = ground (arith, f)
  tx_rank_step TxAt.testing s f h b = ground (arith, f)
  tx_rank_step TxAt.stopping s f h b = ground (arith, f, b)
  tx_rank_step TxAt.restarting s f h b = ground (arith, f)
  tx_rank_step TxAt.done s f h b = absurd (h tt)

  max1_mono : (m n : ℕ) → m ≤ n → max1 m ≤ max1 n
  max1_mono zero n h = ground arith
  max1_mono (suc m) n h = ground (arith, h)

  tx_at_stop : (a : TxAt) (s : System) → (tx_at verify a s).stop ≡ s.stop
  unfolding tx_at
  tx_at_stop TxAt.starting s = ground arith
  tx_at_stop TxAt.finishing s = refl
  tx_at_stop TxAt.testing s = refl
  tx_at_stop TxAt.stopping s = ground arith
  tx_at_stop TxAt.restarting s = ground arith
  tx_at_stop TxAt.done s = refl

  -- Each move brings the end nearer.
  rank-step :
      (num0 : ℕ) (m : Move) (s : System)
      → TxSide num0 s
      → RxSide s
      → Allowed m s
      → (step verify m s).num_transfers ≤ num0
      → rank (step verify m s) < rank s
  unfolding step
  rank-step num0 interrupt s t x a b = ground (arith, a)
  rank-step num0 receive s t x a b = omega (arith, rx_rank_step s.rx.at s x.good.0 a)
  rank-step num0 transmit s t x a b =
      let (same, _, number) = tx_at_effect verify s.tx.at s t.good in
      let s' = tx_at verify s.tx.at s in
      let fewer : s'.num_transfers ≤ s.num_transfers = ground (arith, number, t.number, b) in
      let r = s.rx in
      let mono =
        rx_rank_mono r.at (max1 s.num_transfers) (max1 s'.num_transfers) r.in_progress_count
          r.rx_counter (max1_mono s'.num_transfers s.num_transfers fewer) in
      let still : s'.stop ≡ s.stop = tx_at_stop s.tx.at s in
      rw (same, still) (omega (arith, mono, tx_rank_step s.tx.at s t.good a fewer))

  Run_rank :
      {num0 n : ℕ} {s : System}
      → Run verify num0 n s
      → s.num_transfers ≤ num0
      → n + rank s ≤ 7 * max1 num0 + 35
  Run_rank {num0} here b = omega arith
  Run_rank {num0} (next {n} {s} r m a) b =
      let t = Run-TxSide verify r in
      let b' = step_number verify num0 m s t b in
      omega (arith, rank-step num0 m s t (Run-RxSide verify r b') a b, Run_rank r b')

  -- Where a thread can go on in the strictest loop, in which also a send completes only once its receive
  -- is started.
  abbrev pub StrictCan : TxAt → System → Type 0
  StrictCan TxAt.finishing s = finishes s.tx.log < starts s.rx.log
  StrictCan a s = TransmitCan a s

  abbrev pub Finished : System → Type 0
  Finished s =
      let m = max1 s.num_transfers in
      (s.tx.at ≡ TxAt.done)
      × (s.rx.at ≡ RxAt.done)
      × (starts s.tx.log ≡ m)
      × (finishes s.tx.log ≡ m)
      × (starts s.rx.log ≡ m)
      × (finishes s.rx.log ≡ m)

  goes_on :
      (a : TxAt) (x : RxAt) (s : System)
      → s.tx.at ≡ a
      → s.rx.at ≡ x
      → TxFacts a (max1 s.num_transfers) s.tx.buffer_id s.tx.in_progress_count s.tx.counter s.tx.log
      → RxFacts x
          (max1 s.num_transfers)
          s.rx.buffer_id
          s.rx.in_progress_count
          s.rx.rx_counter
          s.rx.log
      → Finished s ⊎ StrictCan a s ⊎ ReceiveCan x s
  goes_on a RxAt.starting s h i f g = inr (inr tt)
  goes_on a RxAt.testing s h i f g = inr (inr tt)
  goes_on a RxAt.restarting s h i f g = inr (inr tt)
  goes_on TxAt.starting x s h i f g = inr (inl tt)
  goes_on TxAt.testing x s h i f g = inr (inl tt)
  goes_on TxAt.stopping x s h i f g = inr (inl tt)
  goes_on TxAt.restarting x s h i f g = inr (inl tt)
  goes_on TxAt.finishing RxAt.finishing s h i f g = ground (arith, f, g)
  goes_on TxAt.finishing RxAt.done s h i f g = ground (arith, f, g)
  goes_on TxAt.done RxAt.finishing s h i f g = ground (arith, f, g)
  goes_on TxAt.done RxAt.done s h i f g = inl (h, i, f.1, f.2, g.1, g.2)

  -- Until a stop raises the number of transfers above the one asked for, a run of the threads and one
  -- signal, in any order, has at most 7 moves for each transfer asked for, at least one, and 35; and
  -- either a thread can go on, even if a send completes only once its receive is started, or both
  -- threads have ended, with exactly the number of transfers sent and received, none in progress.
  pub loopback_ends :
      (num0 n : ℕ) (s : System)
      → Run verify num0 n s
      → s.num_transfers ≤ num0
      → (n ≤ 7 * max1 num0 + 35) × (Finished s ⊎ StrictCan s.tx.at s ⊎ ReceiveCan s.rx.at s)
  loopback_ends num0 n s r b =
      let t = Run-TxSide verify r in
      let x = Run-RxSide verify r b in
      (omega (arith, Run_rank r b), goes_on s.tx.at s.rx.at s refl refl t.good x.good.0)
