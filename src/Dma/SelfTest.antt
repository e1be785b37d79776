-- ===== src/Dma/SelfTest.antt =====
-- The internal test of linux-user-space-dma/Software/Kernel/dma-proxy.c: `tx_test`, which a worker runs, and
-- `test`. Both use the first buffer of their channel. The data words, which the test fills and compares,
-- are left out; a difference is only printed.
pub mod Settles
mod Tests
use software_prototypes.Base.{ℕ, ◌*◌, set}
use software_prototypes.Machine.{World, Act, pure, modify, ◌>>=◌, ◌>>◌}
use software_prototypes.Dma.Transfer.{
  Channel, Call, Kernel, buffer_at, start_transfer, wait_for_transfer,
}

abbrev pub test_size : ℕ
test_size = 1024

-- The channels of indices TX_CHANNEL and RX_CHANNEL.
pub record Pair : Type 0 where
  pub tx : Channel
  pub rx : Channel

abbrev pub Tester : Type 0 → Type 0
Tester A = Act Call Pair A

abbrev pub on_tx : {A : Type 0} → Act Call Channel A → Tester A
on_tx m e w =
    let (r, w') = m e (record { log = w.log; globals = w.globals.tx }) in
    (r, record { log = w'.log; globals = record w.globals { tx = w'.globals } })

abbrev pub on_rx : {A : Type 0} → Act Call Channel A → Tester A
on_rx m e w =
    let (r, w') = m e (record { log = w.log; globals = w.globals.rx }) in
    (r, record { log = w'.log; globals = record w.globals { rx = w'.globals } })

-- pBufferTable[0].length = TEST_SIZE
abbrev pub sized : Channel → Channel
sized ch = record ch { buffers = set ch.buffers 0 (record (buffer_at ch 0) { length = test_size }) }

-- When the worker runs: before the receive is set up, before it is started, while it is in progress, or
-- behind it.
pub data Moment : Type 0 where
  at_once before_start in_progress behind : Moment

module _ (k : Kernel) where
  unfoldable pub tx_test : Tester (Unit {0})
  tx_test = do
    modify λ p. record p { tx = record (sized p.tx) { bdindex = 0 } }
    on_tx (start_transfer k)
    on_tx (wait_for_transfer k)

  -- The steps of `test` on the receive channel; it is the transmit channel's index that is reset.
  unfoldable pub receive_setup : Tester (Unit {0})
  receive_setup = modify λ p. record { tx = record p.tx { bdindex = 0 }; rx = sized p.rx }

  unfoldable pub test : Moment → Tester (Unit {0})
  test at_once = do tx_test; receive_setup; on_rx (start_transfer k); on_rx (wait_for_transfer k)
  test before_start = do
    receive_setup
    tx_test
    on_rx (start_transfer k)
    on_rx (wait_for_transfer k)
  test in_progress = do
    receive_setup
    on_rx (start_transfer k)
    tx_test
    on_rx (wait_for_transfer k)
  test behind = do receive_setup; on_rx (start_transfer k); on_rx (wait_for_transfer k); tx_test
