-- ===== src/Dma/SelfTest/Settles.antt =====
-- How the internal test of linux-user-space-dma/Software/Kernel/dma-proxy.c leaves the channels.
use software_prototypes.Base.{◌≡◌, ◌≢◌, refl, ap, ◌∙◌, length, length-set, get_or-set_self, arith}
use software_prototypes.Machine.{Env, World, ok}
use software_prototypes.Dma.Shared.{busy, buffer_count, ChannelBuffer}
use software_prototypes.Dma.Transfer.{
  Channel, Call, Kernel, blank_buffer, buffer_at, start_transfer, wait_for_transfer,
}
use software_prototypes.Dma.Transfer.Bounds.{
  start_transfer_ok, start_transfer_frame, wait_for_transfer_ok,
}
use software_prototypes.Dma.Transfer.Outcome.{wait_settles}
use software_prototypes.Dma.SelfTest.{
  test_size, Pair, on_rx, sized, Moment, at_once, before_start, in_progress, behind, tx_test,
  receive_setup, test,
}

-- The first buffer is at rest with the length of the test.
pub Settled : Channel → Type 0
Settled ch = ((buffer_at ch 0).status ≢ busy) × ((buffer_at ch 0).length ≡ test_size)

-- A channel on which a transfer of the first buffer can start.
pub record Ready (ch : Channel) : Type 0 where
  pub first : ch.bdindex ≡ 0
  pub full : length ch.buffers ≡ buffer_count
  pub sized : (buffer_at ch 0).length ≡ test_size

module _ (k : Kernel) (e : Env Call) where
  start_Ready :
      (w : World Call Channel)
      → Ready w.globals
      → let (r, w') = start_transfer k e w in (r ≡ ok tt) × Ready w'.globals
  start_Ready w h =
      let f = start_transfer_frame k e w in
      (
        start_transfer_ok k e w (ground (arith, h)),
        record {
          first = ground (arith, f, h);
          full = ground (arith, f, h);
          sized = ground (arith, f, h);
        },
      )

  wait_Settled :
      (w : World Call Channel)
      → Ready w.globals
      → let (r, w') = wait_for_transfer k e w in (r ≡ ok tt) × Settled w'.globals
  unfolding Settled
  wait_Settled w h =
      let s = wait_settles k e w (ground (arith, h)) h.full in
      (wait_for_transfer_ok k e w (ground (arith, h)), ground (arith, s, h))

  sized-Ready :
      (ch : Channel) → ch.bdindex ≡ 0 → length ch.buffers ≡ buffer_count → Ready (sized ch)
  sized-Ready ch f l =
      let at_0 =
        get_or-set_self ch.buffers 0 (record (buffer_at ch 0) { length = test_size }) blank_buffer
          (omega (arith, l)) in
      record {
        first = f;
        full = length-set ch.buffers 0 (record (buffer_at ch 0) { length = test_size }) ∙ l;
        sized = ap ChannelBuffer.length at_0;
      }

  reset_Settled : (ch : Channel) → Settled ch → Settled (record ch { bdindex = 0 })
  unfolding Settled
  reset_Settled ch s = s

  -- What a step of the test leaves of each channel.
  tx_test_lem :
      (w : World Call Pair)
      → length w.globals.tx.buffers ≡ buffer_count
      → let (r, w') = tx_test k e w in
        (r ≡ ok tt) × Settled w'.globals.tx × (w'.globals.rx ≡ w.globals.rx)
  unfolding tx_test
  tx_test_lem w l =
      let ch = record (sized w.globals.tx) { bdindex = 0 } in
      let begun : World Call Channel = record { log = w.log; globals = ch } in
      let (r, ready) =
        start_Ready begun (sized-Ready (record w.globals.tx { bdindex = 0 }) refl l) in
      let (r', s) = wait_Settled (start_transfer k e begun).1 ready in ground (arith, r, r', s)

  receive_start_lem :
      (w : World Call Pair)
      → Ready w.globals.rx
      → let (r, w') = on_rx (start_transfer k) e w in
        (r ≡ ok tt) × Ready w'.globals.rx × (w'.globals.tx ≡ w.globals.tx)
  receive_start_lem w h =
      let (r, ready) = start_Ready (record { log = w.log; globals = w.globals.rx }) h in
      (r, ready, refl)

  receive_wait_lem :
      (w : World Call Pair)
      → Ready w.globals.rx
      → let (r, w') = on_rx (wait_for_transfer k) e w in
        (r ≡ ok tt) × Settled w'.globals.rx × (w'.globals.tx ≡ w.globals.tx)
  receive_wait_lem w h =
      let (r, s) = wait_Settled (record { log = w.log; globals = w.globals.rx }) h in (r, s, refl)

  -- Whenever the worker runs: where both channels have all their buffers and the index of the receive
  -- channel is 0, as `create_channel` leaves it, the internal test returns without an access out of
  -- bounds, and leaves the first buffer of both channels not busy and with the length of the test.
  pub test_settles :
      (moment : Moment) (w : World Call Pair)
      → length w.globals.tx.buffers ≡ buffer_count
      → length w.globals.rx.buffers ≡ buffer_count
      → w.globals.rx.bdindex ≡ 0
      → let (r, w') = test k moment e w in
        (r ≡ ok tt) × Settled w'.globals.tx × Settled w'.globals.rx
  unfolding test receive_setup
  test_settles at_once w t l f =
      let (r1, s1, same1) = tx_test_lem w t in
      let w1 = (tx_test k e w).1 in
      let w2 = (receive_setup k e w1).1 in
      let s2 = reset_Settled w1.globals.tx s1 in
      let ready : Ready w2.globals.rx = rw same1 (sized-Ready w.globals.rx f l) in
      let (r3, ready3, same3) = receive_start_lem w2 ready in
      let (r4, s4, same4) = receive_wait_lem (on_rx (start_transfer k) e w2).1 ready3 in
      ground (arith, r1, s2, r3, same3, r4, s4, same4)
  test_settles before_start w t l f =
      let w1 = (receive_setup k e w).1 in
      let (r2, s2, same2) = tx_test_lem w1 t in
      let w2 = (tx_test k e w1).1 in
      let ready : Ready w2.globals.rx = rw same2 (sized-Ready w.globals.rx f l) in
      let (r3, ready3, same3) = receive_start_lem w2 ready in
      let (r4, s4, same4) = receive_wait_lem (on_rx (start_transfer k) e w2).1 ready3 in
      ground (arith, r2, s2, r3, same3, r4, s4, same4)
  test_settles in_progress w t l f =
      let w1 = (receive_setup k e w).1 in
      let (r2, ready2, same2) = receive_start_lem w1 (sized-Ready w.globals.rx f l) in
      let w2 = (on_rx (start_transfer k) e w1).1 in
      let (r3, s3, same3) = tx_test_lem w2 t in
      let w3 = (tx_test k e w2).1 in
      let ready3 : Ready w3.globals.rx = rw same3 ready2 in
      let (r4, s4, same4) = receive_wait_lem w3 ready3 in
      ground (arith, r2, r3, s3, same3, r4, s4, same4)
  test_settles behind w t l f =
      let w1 = (receive_setup k e w).1 in
      let (r2, ready2, same2) = receive_start_lem w1 (sized-Ready w.globals.rx f l) in
      let w2 = (on_rx (start_transfer k) e w1).1 in
      let (r3, s3, same3) = receive_wait_lem w2 ready2 in
      let w3 = (on_rx (wait_for_transfer k) e w2).1 in
      let (r4, s4, same4) = tx_test_lem w3 t in ground (arith, r2, r3, s3, same3, r4, s4, same4)
