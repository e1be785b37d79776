-- ===== src/Dma/Loopback/Turns.antt =====
-- The runs of the two threads on looped-back channels, and what their transfers have in common while no
-- stop raises the number of transfers.
use software_prototypes.Base.{
  ℕ, ◌≡◌, ◌≢◌, ◌⊎◌, inl, inr, Bool, true, false, List, ◌+◌, ◌<◌, ◌≤◌, arith,
}
use software_prototypes.Dma.Threads.{ThreadCall}
use software_prototypes.Dma.Threads.Receive.{starts, finishes, InTurn, max1}
use software_prototypes.Dma.Loopback.{
  TxAt, RxAt, System, rx_at, tx_at, Move, interrupt, transmit, receive, ReceiveCan, TransmitCan,
  Allowed, begun, step, Run, here, next,
}
use software_prototypes.Dma.Loopback.Facts.{
  RxFacts, RxGood, rx_at-RxGood, TxFacts, TxGood, tx_at-TxGood,
}

-- The number of transfers is the one asked for, or the one of a stop.
abbrev pub Number : (num0 : ℕ) → System → Type 0
Number num0 s =
    ((s.tx.stop_in_progress ≡ false) × (s.num_transfers ≡ num0))
    ⊎ ((s.tx.stop_in_progress ≡ true) × (33 ≤ s.num_transfers))

pub record TxSide (num0 : ℕ) (s : System) : Type 0 where
  pub good : TxGood s.num_transfers s.tx
  pub number : Number num0 s

pub record RxSide (s : System) : Type 0 where
  pub good : RxGood s.num_transfers s.rx
  -- no receive completes that was not sent
  pub sent : finishes s.rx.log ≤ starts s.tx.log

TransmitCan-ne : (a : TxAt) (s : System) → TransmitCan a s → a ≢ TxAt.done
TransmitCan-ne TxAt.starting s h = λ e. ground (arith, e)
TransmitCan-ne TxAt.finishing s h = λ e. ground (arith, e)
TransmitCan-ne TxAt.testing s h = λ e. ground (arith, e)
TransmitCan-ne TxAt.stopping s h = λ e. ground (arith, e)
TransmitCan-ne TxAt.restarting s h = λ e. ground (arith, e)
TransmitCan-ne TxAt.done s h = absurd (h tt)

ReceiveCan-ne : (a : RxAt) (s : System) → ReceiveCan a s → a ≢ RxAt.done
ReceiveCan-ne RxAt.starting s h = λ e. ground (arith, e)
ReceiveCan-ne RxAt.finishing s h = λ e. ground (arith, e)
ReceiveCan-ne RxAt.testing s h = λ e. ground (arith, e)
ReceiveCan-ne RxAt.restarting s h = λ e. ground (arith, e)
ReceiveCan-ne RxAt.done s h = absurd (h tt)

module _ (verify : Bool) where
  tx_at-Number :
      (num0 : ℕ) (a : TxAt) (s : System)
      → TxFacts a (max1 s.num_transfers) s.tx.buffer_id s.tx.in_progress_count s.tx.counter s.tx.log
      → Number num0 s
      → Number num0 (tx_at verify a s)
  unfolding tx_at
  tx_at-Number num0 TxAt.starting s f n = ground (arith, n)
  tx_at-Number num0 TxAt.finishing s f n = n
  tx_at-Number num0 TxAt.testing s f n = n
  tx_at-Number num0 TxAt.stopping s f n = ground (arith, f, n)
  tx_at-Number num0 TxAt.restarting s f n = ground (arith, n)
  tx_at-Number num0 TxAt.done s f n = n

  pub step-TxSide :
      (num0 : ℕ) (m : Move) (s : System)
      → TxSide num0 s
      → Allowed m s
      → TxSide num0 (step verify m s)
  unfolding step
  step-TxSide num0 interrupt s h a = record { good = h.good; number = h.number }
  step-TxSide num0 receive s h a = record { good = h.good; number = h.number }
  step-TxSide num0 transmit s h a = record {
    good = tx_at-TxGood verify s.tx.at s h.good (TransmitCan-ne s.tx.at s a);
    number = tx_at-Number num0 s.tx.at s h.good h.number;
  }

  begun-TxSide : (num0 : ℕ) → TxSide num0 (begun num0)
  unfolding starts finishes
  begun-TxSide num0 = ground arith

  pub Run-TxSide : {num0 n : ℕ} {s : System} → Run verify num0 n s → TxSide num0 s
  Run-TxSide {num0} here = begun-TxSide num0
  Run-TxSide {num0} (next {n} {s} r m a) = step-TxSide num0 m s (Run-TxSide r) a

  -- A smaller number, that of a stop behind c sends.
  RxFacts-lowered :
      (a : RxAt) (num c b p n : ℕ) (l : List ThreadCall)
      → RxFacts a (max1 num) b p n l
      → finishes l ≤ c
      → 1 ≤ c
      → c < num
      → c + 32 ≤ num
      → RxFacts a (max1 (c + 32)) b p n l
  RxFacts-lowered RxAt.starting num c b p n l f s h1 h2 h3 = ground (arith, f)
  RxFacts-lowered RxAt.finishing num c b p n l f s h1 h2 h3 = ground (arith, f)
  RxFacts-lowered RxAt.testing num c b p n l f s h1 h2 h3 = ground (arith, f)
  RxFacts-lowered RxAt.restarting num c b p n l f s h1 h2 h3 = ground (arith, f)
  RxFacts-lowered RxAt.done num c b p n l f s h1 h2 h3 = ground (arith, f)

  -- What a step of the transmitting thread does to the number and to its starts.
  pub tx_at_effect :
      (a : TxAt) (s : System)
      → TxFacts a (max1 s.num_transfers) s.tx.buffer_id s.tx.in_progress_count s.tx.counter s.tx.log
      → let s' = tx_at verify a s in
        let c = s.tx.counter in
        (s'.rx ≡ s.rx)
        × (starts s.tx.log ≤ starts s'.tx.log)
        × ((s'.num_transfers ≡ s.num_transfers)
            ⊎ ((s'.num_transfers ≡ c + 32)
                × (s.tx.stop_in_progress ≡ false)
                × (starts s.tx.log ≡ c)
                × (1 ≤ c)
                × (c < s.num_transfers)))
  unfolding tx_at starts
  tx_at_effect TxAt.starting s f = ground (arith, f)
  tx_at_effect TxAt.finishing s f = ground (arith, f)
  tx_at_effect TxAt.testing s f = ground (arith, f)
  tx_at_effect TxAt.stopping s f = ground (arith, f)
  tx_at_effect TxAt.restarting s f = ground (arith, f)
  tx_at_effect TxAt.done s f = ground (arith, f)

  rx_at_sent :
      (a : RxAt) (s : System)
      → ReceiveCan a s
      → finishes s.rx.log ≤ starts s.tx.log
      → finishes (rx_at a s.num_transfers s.rx).log ≤ starts s.tx.log
  unfolding rx_at finishes
  rx_at_sent RxAt.starting s h i = ground (arith, i)
  rx_at_sent RxAt.finishing s h i = ground (arith, h)
  rx_at_sent RxAt.testing s h i = i
  rx_at_sent RxAt.restarting s h i = ground (arith, i)
  rx_at_sent RxAt.done s h i = i

  -- A step keeps the receiving side, unless it raises the number above the one asked for.
  pub step-RxSide :
      (num0 : ℕ) (m : Move) (s : System)
      → TxSide num0 s
      → Allowed m s
      → RxSide s
      → (step verify m s).num_transfers ≤ num0
      → RxSide (step verify m s)
  unfolding step
  step-RxSide num0 interrupt s t a h b = record { good = h.good; sent = h.sent }
  step-RxSide num0 receive s t a h b =
      let (f, i) = h.good in
      record {
        good = rx_at-RxGood s.rx.at s.num_transfers s.rx f i (ReceiveCan-ne s.rx.at s a);
        sent = rx_at_sent s.rx.at s a h.sent;
      }
  step-RxSide num0 transmit s t a h b =
      let (same, more, number) = tx_at_effect s.tx.at s t.good in
      let sent : finishes (tx_at verify s.tx.at s).rx.log ≤ starts (tx_at verify s.tx.at s).tx.log =
        rw same (omega (arith, h.sent, more)) in
      elim number [
        | inl e ↦ record { good = rw (same, e) h.good; sent = sent }
        | inr (e, unstopped, all_sent, c1, c2) ↦
            let (f, i) = h.good in
            let c = s.tx.counter in
            let room : c + 32 ≤ s.num_transfers = ground (arith, t.number, unstopped, e, b) in
            let r = s.rx in
            let lowered =
              RxFacts-lowered r.at s.num_transfers c r.buffer_id r.in_progress_count r.rx_counter
                r.log f (omega (arith, h.sent, all_sent)) c1 c2 room in
            record { good = rw (same, e) (lowered, i); sent = sent }
      ]

  pub begun-RxSide : (num0 : ℕ) → RxSide (begun num0)
  unfolding starts finishes InTurn
  begun-RxSide num0 = ground arith

  -- The number was not above the one asked for before.
  pub step_number :
      (num0 : ℕ) (m : Move) (s : System)
      → TxSide num0 s
      → (step verify m s).num_transfers ≤ num0
      → s.num_transfers ≤ num0
  unfolding step
  step_number num0 interrupt s t b = b
  step_number num0 receive s t b = b
  step_number num0 transmit s t b =
      let (_, _, n) = tx_at_effect s.tx.at s t.good in ground (arith, n, t.number, b)

  pub Run-RxSide :
      {num0 n : ℕ} {s : System} → Run verify num0 n s → s.num_transfers ≤ num0 → RxSide s
  Run-RxSide {num0} here b = begun-RxSide num0
  Run-RxSide {num0} (next {n} {s} r m a) b =
      let t = Run-TxSide r in step-RxSide num0 m s t a (Run-RxSide r (step_number num0 m s t b)) b

  RxFacts-bound :
      (a : RxAt) (m b p c : ℕ) (l : List ThreadCall) → RxFacts a m b p c l → starts l ≤ m
  RxFacts-bound RxAt.starting m b p c l f = omega (arith, f)
  RxFacts-bound RxAt.finishing m b p c l f = omega (arith, f)
  RxFacts-bound RxAt.testing m b p c l f = omega (arith, f)
  RxFacts-bound RxAt.restarting m b p c l f = omega (arith, f)
  RxFacts-bound RxAt.done m b p c l f = omega (arith, f)

  -- In every run of the threads and the signal, in any order, until a stop raises the number of
  -- transfers above the one asked for: each receive buffer is started only while it is idle and finished
  -- only while it is in progress, in turn; no receive completes that was not sent; and not more
  -- receives are started than the number of transfers, which counts as 1 if it is 0.
  pub loopback_in_turn :
      (num0 n : ℕ) (s : System)
      → Run verify num0 n s
      → s.num_transfers ≤ num0
      → InTurn s.rx.log
        × (finishes s.rx.log ≤ starts s.tx.log)
        × (starts s.rx.log ≤ max1 s.num_transfers)
  loopback_in_turn num0 n s r b =
      let h = Run-RxSide r b in
      let x = s.rx in
      let (f, i) = h.good in
      (
        i,
        h.sent,
        RxFacts-bound x.at (max1 s.num_transfers) x.buffer_id x.in_progress_count x.rx_counter x.log
            f,
      )
