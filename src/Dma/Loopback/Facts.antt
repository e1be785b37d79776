-- ===== src/Dma/Loopback/Facts.antt =====
-- What holds of each thread of the looped-back channels where it stands, and that its own steps keep it.
use software_prototypes.Base.{ℕ, suc, ◌≡◌, ◌≢◌, ◌⊎◌, refl, Bool, List, ◌+◌, ◌%◌, ◌<◌, ◌≤◌, arith}
use software_prototypes.Dma.Threads.{ThreadCall, rx_next, tx_next}
use software_prototypes.Dma.Threads.Receive.{starts, finishes, InTurn, max1}
use software_prototypes.Dma.Loopback.{TxAt, RxAt, Tx, Rx, System, rx_at, tx_at}

-- The receiving thread at buffer b, with p transfers in progress and c counted, of m to do.
abbrev pub RxFacts : RxAt → (m b p c : ℕ) → List ThreadCall → Type 0
RxFacts RxAt.starting m b p c l =
    (b ≡ p) × (p < 32) × (p < m) × (c ≡ 0) × (starts l ≡ p) × (finishes l ≡ 0)
RxFacts RxAt.finishing m b p c l =
    (b ≡ c % 32)
    × (1 ≤ p)
    × (p ≤ 32)
    × (c + p ≤ m)
    × ((p ≡ 32) ⊎ (c + p ≡ m))
    × (starts l ≡ c + p)
    × (finishes l ≡ c)
RxFacts RxAt.testing m b p c l =
    (b ≡ c % 32)
    × (p ≤ 31)
    × (suc c + p ≤ m)
    × ((p ≡ 31) ⊎ (suc c + p ≡ m))
    × (starts l ≡ suc c + p)
    × (finishes l ≡ suc c)
RxFacts RxAt.restarting m b p c l =
    (b ≡ (c + 31) % 32)
    × (p ≤ 31)
    × (c < m)
    × (c + p ≤ m)
    × ((p ≡ 31) ⊎ (c + p ≡ m))
    × (1 ≤ c)
    × (starts l ≡ c + p)
    × (finishes l ≡ c)
RxFacts RxAt.done m b p c l = (c ≡ m) × (starts l ≡ m) × (finishes l ≡ m)

abbrev pub RxGood : (num : ℕ) → Rx → Type 0
RxGood num r =
    RxFacts r.at (max1 num) r.buffer_id r.in_progress_count r.rx_counter r.log × InTurn r.log

pub rx_at-RxGood :
    (a : RxAt) (num : ℕ) (r : Rx)
    → RxFacts a (max1 num) r.buffer_id r.in_progress_count r.rx_counter r.log
    → InTurn r.log
    → a ≢ RxAt.done
    → RxGood num (rx_at a num r)
unfolding rx_at starts finishes InTurn rx_next
rx_at-RxGood RxAt.starting num r f t n = ground (arith, f, t)
rx_at-RxGood RxAt.finishing num r f t n = ground (arith, f, t)
rx_at-RxGood RxAt.testing num r f t n = ground (arith, f, t)
rx_at-RxGood RxAt.restarting num r f t n = ground (arith, f, t)
rx_at-RxGood RxAt.done num r f t n = absurd (n refl)

-- The transmitting thread with p transfers in progress and c counted, of m to do.
abbrev pub TxFacts : TxAt → (m b p c : ℕ) → List ThreadCall → Type 0
TxFacts TxAt.starting m b p c l = (b ≡ 0) × (p ≡ 0) × (c ≡ 0) × (starts l ≡ 0) × (finishes l ≡ 0)
TxFacts TxAt.finishing m b p c l =
    (b ≡ 0) × (p ≡ 1) × (c < m) × (starts l ≡ suc c) × (finishes l ≡ c)
TxFacts TxAt.testing m b p c l =
    (b ≡ 0) × (p ≡ 0) × (1 ≤ c) × (c ≤ m) × (starts l ≡ c) × (finishes l ≡ c)
TxFacts TxAt.stopping m b p c l =
    (b ≡ 0) × (p ≡ 0) × (1 ≤ c) × (c < m) × (starts l ≡ c) × (finishes l ≡ c)
TxFacts TxAt.restarting m b p c l =
    (b ≡ 0) × (p ≡ 0) × (1 ≤ c) × (c < m) × (starts l ≡ c) × (finishes l ≡ c)
TxFacts TxAt.done m b p c l = (c ≡ m) × (starts l ≡ m) × (finishes l ≡ m)

abbrev pub TxGood : (num : ℕ) → Tx → Type 0
TxGood num t = TxFacts t.at (max1 num) t.buffer_id t.in_progress_count t.counter t.log

pub tx_at-TxGood :
    (verify : Bool) (a : TxAt) (s : System)
    → TxFacts a (max1 s.num_transfers) s.tx.buffer_id s.tx.in_progress_count s.tx.counter s.tx.log
    → a ≢ TxAt.done
    → let s' = tx_at verify a s in TxGood s'.num_transfers s'.tx
unfolding tx_at starts finishes tx_next
tx_at-TxGood verify TxAt.starting s f n = ground (arith, f)
tx_at-TxGood verify TxAt.finishing s f n = ground (arith, f)
tx_at-TxGood verify TxAt.testing s f n = ground (arith, f)
tx_at-TxGood verify TxAt.stopping s f n = ground (arith, f)
tx_at-TxGood verify TxAt.restarting s f n = ground (arith, f)
tx_at-TxGood verify TxAt.done s f n = absurd (n refl)
