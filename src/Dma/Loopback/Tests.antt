-- ===== src/Dma/Loopback/Tests.antt =====
-- Runs of the two threads: of 100 transfers, stopped behind the first, and of 5.
use software_prototypes.Base.{
  ℕ, suc, ◌≡◌, ◌⊎◌, refl, true, some, List, [], ◌∷◌, ◌++◌, replicate, ◌+◌, ◌*◌, ◌≤◌, arith,
}
use software_prototypes.Dma.Threads.{rx_next}
use software_prototypes.Dma.Threads.Receive.{starts, finishes, InTurn, max1}
use software_prototypes.Dma.Loopback.{
  RxAt, System, rx_at, tx_at, Move, interrupt, transmit, receive, ReceiveCan, begun, step, Run,
  here,
}
use software_prototypes.Dma.Loopback.Turns.{loopback_in_turn}
use software_prototypes.Dma.Loopback.Ends.{Finished, StrictCan, loopback_ends}
use software_prototypes.Dma.Loopback.Data.{nth_sent, loopback_verifies}
use software_prototypes.Dma.Loopback.Raised.{allowed, play, play-Run, waits_idle, stop_overruns}

abbrev moves : List Move
moves = replicate 32 receive ++ replicate 3 transmit ++ interrupt ∷ replicate 2 transmit

abbrev stopped : System
stopped = (play true moves (begun 100)).1

moves_allowed : (play true moves (begun 100)).0 ≡ true
unfolding play allowed step rx_at tx_at starts finishes rx_next
moves_allowed = refl

stopped-Run : (n : ℕ) × Run true 100 n stopped
stopped-Run = play-Run true moves here moves_allowed

stopped_number : stopped.num_transfers ≤ 100
unfolding play allowed step rx_at tx_at starts finishes rx_next
stopped_number = omega arith

loopback_in_turn_example :
    InTurn stopped.rx.log
    × (finishes stopped.rx.log ≤ starts stopped.tx.log)
    × (starts stopped.rx.log ≤ max1 stopped.num_transfers)
loopback_in_turn_example =
    loopback_in_turn true 100 stopped-Run.0 stopped stopped-Run.1 stopped_number

loopback_ends_example :
    (stopped-Run.0 ≤ 7 * max1 100 + 35)
    × (Finished true stopped
        ⊎ StrictCan true stopped.tx.at stopped
        ⊎ ReceiveCan stopped.rx.at stopped)
loopback_ends_example = loopback_ends true 100 stopped-Run.0 stopped stopped-Run.1 stopped_number

stop_overruns_example :
    (n : ℕ) × (s : System) × (Run true 5 n s
      × (s.stop ≡ true)
      × (s.tx.stop_in_progress ≡ true)
      × (s.num_transfers ≡ 33)
      × (waits_idle s ≡ true))
stop_overruns_example = stop_overruns true 5 (omega arith) (omega arith)

abbrev tested_moves : List Move
tested_moves = replicate 32 receive ++ replicate 3 transmit ++ receive ∷ []

abbrev tested : System
tested = (play true tested_moves (begun 100)).1

tested_allowed : (play true tested_moves (begun 100)).0 ≡ true
unfolding play allowed step rx_at tx_at starts finishes rx_next
tested_allowed = refl

tested-Run : (n : ℕ) × Run true 100 n tested
tested-Run = play-Run true tested_moves here tested_allowed

tested_number : tested.num_transfers ≤ 100
unfolding play allowed step rx_at tx_at starts finishes rx_next
tested_number = omega arith

tested_at : tested.rx.at ≡ RxAt.testing
unfolding play allowed step rx_at tx_at starts finishes rx_next
tested_at = refl

loopback_verifies_example :
    (finishes tested.rx.log ≡ suc tested.rx.rx_counter)
    × (nth_sent tested.tx.log tested.rx.rx_counter ≡ some tested.rx.rx_counter)
loopback_verifies_example =
    loopback_verifies 100 tested-Run.0 tested tested-Run.1 tested_number tested_at
