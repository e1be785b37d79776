-- ===== src/Dma/Loopback/Raised.antt =====
-- Runs in which a stop raises the number of transfers above the one asked for, when the receiving thread
-- has already left out restarts.
use software_prototypes.Base.{
  ℕ, suc, zero, ◌≡◌, inl, inr, refl, Bool, true, false, Bool-cases, not, ◌&&◌, List, [], ◌∷◌, ◌++◌,
  ◌==◌, ltb, ◌+◌, ◌-◌, ◌*◌, ◌<◌, ◌≤◌, if◌then◌else◌, replicate, arith,
}
use software_prototypes.Dma.Threads.{ThreadCall, start, finish, rx_next}
use software_prototypes.Dma.Threads.Receive.{starts, finishes}
use software_prototypes.Dma.Loopback.{
  TxAt, RxAt, System, rx_at, tx_at, Move, interrupt, transmit, receive, ReceiveCan, TransmitCan,
  Allowed, begun, step, Run, here, next,
}

-- The starts and the finishes of one buffer.
unfoldable pub starts_of : (b : ℕ) → List ThreadCall → ℕ
starts_of b [] = 0
starts_of b (start c ∷ l) = (if c == b then 1 else 0) + starts_of b l
starts_of b (c ∷ l) = starts_of b l

unfoldable pub finishes_of : (b : ℕ) → List ThreadCall → ℕ
finishes_of b [] = 0
finishes_of b (finish c ∷ l) = (if c == b then 1 else 0) + finishes_of b l
finishes_of b (c ∷ l) = finishes_of b l

abbrev at_finish : RxAt → Bool
at_finish RxAt.finishing = true
at_finish a = false

-- The receiving thread is about to wait for a buffer that is idle.
unfoldable pub waits_idle : System → Bool
unfolding starts_of finishes_of
waits_idle s =
    at_finish s.rx.at && starts_of s.rx.buffer_id s.rx.log == finishes_of s.rx.buffer_id s.rx.log

abbrev receive_can : RxAt → System → Bool
receive_can RxAt.finishing s = ltb (finishes s.rx.log) (starts s.tx.log)
receive_can RxAt.done s = false
receive_can a s = true

abbrev transmit_can : TxAt → Bool
transmit_can TxAt.done = false
transmit_can a = true

unfoldable pub allowed : Move → System → Bool
allowed interrupt s = not s.stop
allowed transmit s = transmit_can s.tx.at
allowed receive s = receive_can s.rx.at s

receive_can_sound : (a : RxAt) (s : System) → receive_can a s ≡ true → ReceiveCan a s
receive_can_sound RxAt.starting s h = tt
receive_can_sound RxAt.finishing s h = ground (arith, h)
receive_can_sound RxAt.testing s h = tt
receive_can_sound RxAt.restarting s h = tt
receive_can_sound RxAt.done s h = absurd (ground (arith, h))

transmit_can_sound : (a : TxAt) (s : System) → transmit_can a ≡ true → TransmitCan a s
transmit_can_sound TxAt.starting s h = tt
transmit_can_sound TxAt.finishing s h = tt
transmit_can_sound TxAt.testing s h = tt
transmit_can_sound TxAt.stopping s h = tt
transmit_can_sound TxAt.restarting s h = tt
transmit_can_sound TxAt.done s h = absurd (ground (arith, h))

allowed_sound : (m : Move) (s : System) → allowed m s ≡ true → Allowed m s
unfolding allowed
allowed_sound interrupt s h = ground (arith, h)
allowed_sound transmit s h = transmit_can_sound s.tx.at s h
allowed_sound receive s h = receive_can_sound s.rx.at s h

module _ (verify : Bool) where
  -- These moves one after the other, and whether each was allowed.
  unfoldable pub play : List Move → System → Bool × System
  play [] s = (true, s)
  play (m ∷ ms) s = let rest = play ms (step verify m s) in if allowed m s then rest else (false, s)

  pub play-Run :
      (ms : List Move) {num n : ℕ} {s : System}
      → Run verify num n s
      → (play ms s).0 ≡ true
      → (k : ℕ) × Run verify num k (play ms s).1
  unfolding play
  play-Run [] {num} {n} {s} r h = (n, r)
  play-Run (m ∷ ms) {num} {n} {s} r h = elim (Bool-cases (allowed m s)) [
    | inl y ↦ rw y (play-Run ms (next r m (allowed_sound m s y)) (ground (arith, y, h)))
    | inr y ↦ absurd (ground (arith, y, h))
  ]

-- The receiving thread starts its n transfers, the transmitting thread ends its first, is stopped, and
-- sends n more; then n transfers are received.
schedule : ℕ → List Move
schedule n =
    replicate n receive
    ++ replicate 3 transmit
    ++ interrupt ∷ replicate (2 + 4 * n) transmit
    ++ replicate (3 * n) receive

-- At the end of the schedule the thread waits for an idle buffer, and each move of it was allowed.
overruns : Bool → ℕ → Bool
unfolding play schedule
overruns verify n =
    let (fine, s) = play verify (schedule n) (begun n) in
    fine && (waits_idle s && (s.stop && (s.tx.stop_in_progress && s.num_transfers == 33)))

all_below : (bound : ℕ) → (ℕ → Bool) → Bool
all_below zero p = true
all_below (suc n) p = p n && all_below n p

all_below_sound :
    (bound : ℕ) (p : ℕ → Bool) (n : ℕ) → all_below bound p ≡ true → n < bound → p n ≡ true
unfolding all_below
all_below_sound zero p n h l = absurd (omega (arith, l))
all_below_sound (suc bound) p n h l = ground (arith, h, l, all_below_sound bound p n)

overruns_all : (verify : Bool) → all_below 30 (λ n. overruns verify (n + 2)) ≡ true
unfolding overruns allowed step rx_at tx_at finishes starts waits_idle rx_next all_below
overruns_all true = refl
overruns_all false = refl

-- For each number of transfers from 2 to 31 there is a run of the threads and the signal at the end of
-- which the stop has raised the number of transfers to 33, so the transmitting thread was stopped behind
-- its first transfer, and the receiving thread waits for a buffer of which no transfer is in progress.
pub stop_overruns :
    (verify : Bool) (num : ℕ)
    → 2 ≤ num
    → num < 32
    → (n : ℕ) × (s : System) × (Run verify num n s
        × (s.stop ≡ true)
        × (s.tx.stop_in_progress ≡ true)
        × (s.num_transfers ≡ 33)
        × (waits_idle s ≡ true))
unfolding overruns
stop_overruns verify num l h =
    let s = (play verify (schedule num) (begun num)).1 in
    let same : num - 2 + 2 ≡ num = omega (arith, l) in
    let both : overruns verify num ≡ true = rw same at (
      all_below_sound 30 (λ n. overruns verify (n + 2)) (num - 2) (overruns_all verify)
        (omega (arith, h))) in
    let fine : (play verify (schedule num) (begun num)).0 ≡ true = ground (arith, both) in
    let (n, r) = play-Run verify (schedule num) here fine in
    (
      n,
      s,
      (r, ground (arith, both), ground (arith, both), ground (arith, both), ground (arith, both)),
    )
