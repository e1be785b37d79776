-- ===== src/Dma/Loopback.antt =====
-- The two threads of linux-user-space-dma/Software/User/dma-proxy-test.c at work side by side, on channels of
-- which the transmit is looped back to the receive. Each thread is a machine that makes one access of
-- the shared `num_transfers` or `stop` in a step, or one `ioctl` that waits; a start of a transfer does
-- not wait and belongs to the step of the test of `num_transfers` next to it. The steps of the threads
-- and the signal come in any order. Every receive ends with PROXY_NO_ERROR: another status ends the
-- program and so the run. The status of a send is only printed.
pub mod Facts
pub mod Turns
pub mod Ends
pub mod Raised
pub mod Machine
pub mod Data
mod Tests
use software_prototypes.Base.{
  ℕ, suc, Bool, true, false, not, ◌&&◌, List, [], ◌∷◌, ltb, leb, ◌+◌, ◌*◌, ◌-◌, ◌/◌, ◌<◌, ◌≡◌, ◌≢◌,
  if◌then◌else◌,
}
use software_prototypes.Dma.Shared.{buffer_increment, tx_buffer_count, rx_buffer_count}
use software_prototypes.Dma.Threads.{
  ThreadCall, set_length, start, finish, fill_first, fill, rx_next, tx_next,
}
use software_prototypes.Dma.Threads.Receive.{starts, finishes}

-- Where a thread stands: in its first loop, before FINISH_XFER, before the test for the end, before the
-- test of `stop`, before the restart, or behind its second loop.
pub data TxAt : Type 0 where
  starting finishing testing stopping restarting done : TxAt

pub data RxAt : Type 0 where
  starting finishing testing restarting done : RxAt

-- The locals of `tx_thread`, and what it has called.
pub record Tx : Type 0 where
  pub at : TxAt
  pub buffer_id : ℕ
  pub in_progress_count : ℕ
  pub counter : ℕ
  pub stop_in_progress : Bool
  pub log : List ThreadCall

pub record Rx : Type 0 where
  pub at : RxAt
  pub buffer_id : ℕ
  pub in_progress_count : ℕ
  pub rx_counter : ℕ
  pub log : List ThreadCall

pub record System : Type 0 where
  pub num_transfers : ℕ
  pub stop : Bool
  pub tx : Tx
  pub rx : Rx

-- One step of `rx_thread`, where it stands, with the number that it reads.
unfoldable pub rx_at : RxAt → (num_transfers : ℕ) → Rx → Rx
rx_at RxAt.starting num r =
    let next = r.buffer_id + buffer_increment in
    let started = record r {
      in_progress_count = suc r.in_progress_count;
      log = start r.buffer_id ∷ set_length r.buffer_id ∷ r.log;
    } in
    if leb num (suc r.in_progress_count)
    then record started { at = RxAt.finishing; buffer_id = 0 }
    else if ltb next rx_buffer_count
    then record started { at = RxAt.starting; buffer_id = next }
    else record started { at = RxAt.finishing; buffer_id = 0 }
rx_at RxAt.finishing num r = record r {
  at = RxAt.testing;
  in_progress_count = r.in_progress_count - 1;
  log = finish r.buffer_id ∷ r.log;
}
rx_at RxAt.testing num r = record r {
  at = if leb num (suc r.rx_counter) then RxAt.done else RxAt.restarting;
  rx_counter = suc r.rx_counter;
}
rx_at RxAt.restarting num r =
    let next = record r { at = RxAt.finishing; buffer_id = rx_next r.buffer_id } in
    if leb num (r.rx_counter + r.in_progress_count) then next else record next {
      in_progress_count = suc r.in_progress_count;
      log = start r.buffer_id ∷ r.log;
    }
rx_at RxAt.done num r = r

module _ (verify : Bool) where
  abbrev filled : Bool → ThreadCall → List ThreadCall → List ThreadCall
  filled v c l = if v then c ∷ l else l

  -- One step of `tx_thread`.
  unfoldable pub tx_at : TxAt → System → System
  tx_at TxAt.starting s =
      let t = s.tx in
      let next = t.buffer_id + buffer_increment in
      let l =
        filled verify (fill_first t.buffer_id t.in_progress_count)
          (set_length t.buffer_id ∷ t.log) in
      let started = record t {
        in_progress_count = suc t.in_progress_count;
        log = start t.buffer_id ∷ l;
      } in
      if leb s.num_transfers (suc t.in_progress_count)
      then record s { tx = record started { at = TxAt.finishing; buffer_id = 0 } }
      else if ltb next tx_buffer_count
      then record s { tx = record started { at = TxAt.starting; buffer_id = next } }
      else record s { tx = record started { at = TxAt.finishing; buffer_id = 0 } }
  tx_at TxAt.finishing s =
      let t = s.tx in
      record s {
        tx = record t {
          at = TxAt.testing;
          in_progress_count = t.in_progress_count - 1;
          counter = suc t.counter;
          log = finish t.buffer_id ∷ t.log;
        };
      }
  tx_at TxAt.testing s = record s {
    tx = record s.tx { at = if leb s.num_transfers s.tx.counter then TxAt.done else TxAt.stopping };
  }
  tx_at TxAt.stopping s =
      if s.stop && not s.tx.stop_in_progress
      then record s {
        num_transfers = s.tx.counter + rx_buffer_count;
        tx = record s.tx { at = TxAt.restarting; stop_in_progress = true };
      }
      else record s { tx = record s.tx { at = TxAt.restarting } }
  tx_at TxAt.restarting s =
      let t = s.tx in
      let next = record t { at = TxAt.finishing; buffer_id = tx_next verify t.buffer_id } in
      let from = (tx_buffer_count / buffer_increment - 1) + t.counter in
      if leb s.num_transfers (t.counter + t.in_progress_count)
      then record s { tx = next }
      else record s {
        tx = record next {
          in_progress_count = suc t.in_progress_count;
          log = start t.buffer_id ∷ filled verify (fill t.buffer_id from) t.log;
        };
      }
  tx_at TxAt.done s = s

-- What moves: the signal, or a thread.
pub data Move : Type 0 where
  interrupt transmit receive : Move

-- Where a thread can go on. A receive completes only for a transfer that was sent.
abbrev pub ReceiveCan : RxAt → System → Type 0
ReceiveCan RxAt.starting s = Unit
ReceiveCan RxAt.finishing s = finishes s.rx.log < starts s.tx.log
ReceiveCan RxAt.testing s = Unit
ReceiveCan RxAt.restarting s = Unit
ReceiveCan RxAt.done s = ¬ Unit {0}

abbrev pub TransmitCan : TxAt → System → Type 0
TransmitCan TxAt.done s = ¬ Unit {0}
TransmitCan a s = Unit

-- A signal is counted once: another one changes nothing.
abbrev pub Allowed : Move → System → Type 0
Allowed interrupt s = s.stop ≡ false
Allowed transmit s = TransmitCan s.tx.at s
Allowed receive s = ReceiveCan s.rx.at s

abbrev pub begun : (num_transfers : ℕ) → System
begun num = record {
  num_transfers = num;
  stop = false;
  tx = record {
    at = TxAt.starting;
    buffer_id = 0;
    in_progress_count = 0;
    counter = 0;
    stop_in_progress = false;
    log = [];
  };
  rx = record {
    at = RxAt.starting;
    buffer_id = 0;
    in_progress_count = 0;
    rx_counter = 0;
    log = [];
  };
}

module _ (verify : Bool) where
  -- `sigint`, or a step of a thread.
  unfoldable pub step : Move → System → System
  step interrupt s = record s { stop = true }
  step transmit s = tx_at verify s.tx.at s
  step receive s = record s { rx = rx_at s.rx.at s.num_transfers s.rx }

  -- The runs of n moves, by the number that the program was asked for.
  pub data Run (num : ℕ) : ℕ → System → Type 0 where
    here : Run num 0 (begun num)
    next :
        {n : ℕ} {s : System} → Run num n s → (m : Move) → Allowed m s → Run num (suc n) (step m s)
