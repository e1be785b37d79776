-- ===== src/Dma/Threads/Driver.antt =====
-- The threads of linux-user-space-dma/Software/User/dma-proxy-test.c on the driver
-- Software/Kernel/dma-proxy.c: the buffers that they use, and the runs of the driver's `ioctl` for them.
use software_prototypes.Base.{
  ℕ, suc, zero, ◌≡◌, ◌⊎◌, refl, Bool, true, false, ◌&&◌, List, [], ◌∷◌, ltb, leb, ◌+◌, ◌-◌, ◌<◌,
  ◌≤◌, if◌then◌else◌, arith,
}
use software_prototypes.Machine.{Env, World, Outcome, Act, ok, stop, hang, fault, pure, ◌>>◌}
use software_prototypes.Dma.Shared.{
  Command, start_xfer, finish_xfer, buffer_count, buffer_increment, rx_buffer_count,
  tx_buffer_count,
}
use software_prototypes.Dma.Transfer.{Channel, Call, Kernel, ioctl, zero_rc, einval}
use software_prototypes.Dma.Transfer.Bounds.{perform_returns, after_copy}
use software_prototypes.Dma.Threads.{
  ThreadCall, set_length, start, finish, fill_first, fill, read_stop, rx_start_loop, rx_next,
  rx_restart, rx_loop, rx_thread, tx_start_loop, tx_next, tx_restart, tx_loop, tx_thread,
}
use software_prototypes.Dma.Threads.Receive.{fresh}
use software_prototypes.Dma.Threads.Transmit.{stopped_by, read_world, tx_check_stop_lem}

-- Every buffer that is used is one of the first n.
unfoldable pub within : (n : ℕ) → List ThreadCall → Bool
within n [] = true
within n (set_length b ∷ l) = ltb b n && within n l
within n (start b ∷ l) = ltb b n && within n l
within n (finish b ∷ l) = ltb b n && within n l
within n (fill_first b from ∷ l) = ltb b n && within n l
within n (fill b from ∷ l) = ltb b n && within n l
within n (read_stop ∷ l) = within n l

-- The driver's environment with this index in the memory of the caller.
abbrev pub at_index : (b : ℕ) → Env Call → Env Call
at_index b e = record e { words = λ _ _. b ∷ [] }

-- The `ioctl` calls of a thread, in their order, on the driver.
unfoldable pub drive : Kernel → List ThreadCall → Act Call Channel (Unit {0})
drive k [] e w = (ok tt, w)
drive k (start b ∷ l) e w = (drive k l >> (λ e. ioctl k start_xfer (at_index b e)) >> pure tt) e w
drive k (finish b ∷ l) e w = (drive k l >> (λ e. ioctl k finish_xfer (at_index b e)) >> pure tt) e w
drive k (set_length b ∷ l) e w = drive k l e w
drive k (fill_first b from ∷ l) e w = drive k l e w
drive k (fill b from ∷ l) e w = drive k l e w
drive k (read_stop ∷ l) e w = drive k l e w

rx_next_bound : (b : ℕ) → rx_next b < rx_buffer_count
unfolding rx_next
rx_next_bound b = omega arith

module _ (e : Env ThreadCall) where
  rx_start_loop_within :
      (n b p : ℕ) (w : World ThreadCall ℕ)
      → b + n ≤ rx_buffer_count
      → within rx_buffer_count w.log ≡ true
      → within rx_buffer_count (rx_start_loop n b p e w).1.log ≡ true
  unfolding rx_start_loop within
  rx_start_loop_within zero b p w h i = i
  rx_start_loop_within (suc n) b p w h i =
      let w' : World ThreadCall ℕ = record w { log = start b ∷ set_length b ∷ w.log } in
      ground (arith, h, i, rx_start_loop_within n (b + buffer_increment) (suc p) w')

  abbrev rx_left : (num p c : ℕ) → ℕ
  rx_left num p c = if leb num (c + p) then p else suc p

  rx_restart_within :
      (b p c : ℕ) (w : World ThreadCall ℕ)
      → b < rx_buffer_count
      → within rx_buffer_count w.log ≡ true
      → let (r, w') = rx_restart b p c e w in
        (r ≡ ok (rx_left w.globals p c)) × (within rx_buffer_count w'.log ≡ true)
  unfolding rx_restart within
  rx_restart_within b p c w h i = ground (arith, h, i)

  rx_loop_within :
      (n b p c : ℕ) (w : World ThreadCall ℕ)
      → b < rx_buffer_count
      → within rx_buffer_count w.log ≡ true
      → within rx_buffer_count (rx_loop n b p c e w).1.log ≡ true
  unfolding rx_loop within
  rx_loop_within zero b p c w h i = i
  rx_loop_within (suc n) b p c w h i =
      let w' : World ThreadCall ℕ = record w { log = finish b ∷ w.log } in
      let i' : within rx_buffer_count w'.log ≡ true = ground (arith, h, i) in
      let (r, j) = rx_restart_within b (p - 1) (suc c) w' h i' in
      let v = (rx_restart b (p - 1) (suc c) e w').1 in
      let q = rx_left w.globals (p - 1) (suc c) in
      ground (arith, i', r, j, rx_loop_within n (rx_next b) q (suc c) v (rx_next_bound b) j)

  -- What runs behind the first loop keeps to the buffers, whatever that loop returns.
  abbrev behind :
      (fuel : ℕ) → World ThreadCall ℕ → Outcome ℕ → Outcome (Unit {0}) × World ThreadCall ℕ
  behind fuel v r = elim r [
    | ok p ↦ rx_loop fuel 0 p 0 e v
    | stop ↦ (stop, v)
    | hang ↦ (hang, v)
    | fault ↦ (fault, v)
  ]

  behind_within :
      (fuel : ℕ) (v : World ThreadCall ℕ) (r : Outcome ℕ)
      → within rx_buffer_count v.log ≡ true
      → within rx_buffer_count (behind fuel v r).1.log ≡ true
  behind_within fuel v (ok p) i = rx_loop_within fuel 0 p 0 v (omega arith) i
  behind_within fuel v stop i = i
  behind_within fuel v hang i = i
  behind_within fuel v fault i = i

  -- However its transfers end and with any fuel, the receiving thread uses the mapped buffers only.
  rx_thread_within :
      (fuel num : ℕ) → within rx_buffer_count (rx_thread fuel e (fresh num)).1.log ≡ true
  unfolding rx_thread within
  rx_thread_within fuel num =
      let (r, v) = rx_start_loop 32 0 0 e (fresh num) in
      behind_within fuel v r (rx_start_loop_within 32 0 0 (fresh num) (omega arith) refl)

  module _ (verify : Bool) where
    tx_restart_within :
        (p c : ℕ) (w : World ThreadCall ℕ)
        → within tx_buffer_count w.log ≡ true
        → let (r, w') = tx_restart verify 0 p c e w in
          (r ≡ ok (rx_left w.globals p c)) × (within tx_buffer_count w'.log ≡ true)
    unfolding tx_restart within
    tx_restart_within p c w i = ground (arith, i)

    tx_loop_within :
        (n p c : ℕ) (stopping : Bool) (w : World ThreadCall ℕ)
        → within tx_buffer_count w.log ≡ true
        → within tx_buffer_count (tx_loop verify n 0 p c stopping e w).1.log ≡ true
    unfolding tx_loop tx_next within
    tx_loop_within zero p c stopping w i = i
    tx_loop_within (suc n) p c stopping w i =
        let w1 : World ThreadCall ℕ = record w { log = finish 0 ∷ w.log } in
        let w2 = read_world verify e (suc c) stopping w1 in
        let w3 = (tx_restart verify 0 (p - 1) (suc c) e w2).1 in
        let (r, j) = tx_restart_within (p - 1) (suc c) w2 (ground (arith, i)) in
        let q = rx_left w2.globals (p - 1) (suc c) in
        ground (
          arith,
          i,
          r,
          j,
          tx_check_stop_lem verify e (suc c) stopping w1,
          tx_loop_within n q (suc c) (stopped_by verify e w1.log stopping) w3 j,
        )

    -- However its transfers end, whenever it is stopped, and with any fuel, the transmitting thread
    -- uses the one mapped buffer only.
    tx_thread_within :
        (fuel num : ℕ) → within tx_buffer_count (tx_thread verify fuel e (fresh num)).1.log ≡ true
    unfolding tx_thread tx_start_loop within
    tx_thread_within fuel num =
        let v = (tx_start_loop verify 1 0 0 e (fresh num)).1 in
        ground (arith, tx_loop_within fuel 1 0 false v (ground arith))

within_more : (m n : ℕ) (l : List ThreadCall) → m ≤ n → within m l ≡ true → within n l ≡ true
unfolding within
within_more m n [] h i = refl
within_more m n (set_length b ∷ l) h i = ground (arith, h, i, within_more m n l h)
within_more m n (start b ∷ l) h i = ground (arith, h, i, within_more m n l h)
within_more m n (finish b ∷ l) h i = ground (arith, h, i, within_more m n l h)
within_more m n (fill_first b from ∷ l) h i = ground (arith, h, i, within_more m n l h)
within_more m n (fill b from ∷ l) h i = ground (arith, h, i, within_more m n l h)
within_more m n (read_stop ∷ l) h i = ground (arith, h, i, within_more m n l h)

module _ (k : Kernel) (d : Env Call) where
  ioctl-at_index :
      (cmd : Command) (b : ℕ) (w : World Call Channel)
      → b < buffer_count
      → let r = (ioctl k cmd (at_index b d) w).0 in (r ≡ ok zero_rc) ⊎ (r ≡ ok einval)
  unfolding ioctl
  ioctl-at_index cmd b w h =
      let w' = after_copy k (at_index b d) w in
      ground (arith, perform_returns k (at_index b d) cmd w' h)

  drive_returns :
      (l : List ThreadCall) (w : World Call Channel)
      → within buffer_count l ≡ true
      → (drive k l d w).0 ≡ ok tt
  unfolding drive within
  drive_returns [] w i = refl
  drive_returns (start b ∷ l) w i =
      ground (arith, i, drive_returns l w, ioctl-at_index start_xfer b (drive k l d w).1)
  drive_returns (finish b ∷ l) w i =
      ground (arith, i, drive_returns l w, ioctl-at_index finish_xfer b (drive k l d w).1)
  drive_returns (set_length b ∷ l) w i = ground (arith, i, drive_returns l w)
  drive_returns (fill_first b from ∷ l) w i = ground (arith, i, drive_returns l w)
  drive_returns (fill b from ∷ l) w i = ground (arith, i, drive_returns l w)
  drive_returns (read_stop ∷ l) w i = ground (arith, i, drive_returns l w)

  -- Whatever the transfers answer, whenever `stop` is set, and however long the threads run: the
  -- receiving thread uses the 32 buffers that are mapped for it, the transmitting thread the one that
  -- is mapped for it, and none of their `ioctl` calls makes the driver access its tables out of
  -- bounds, whatever the kernel answers the driver.
  pub threads_drive :
      (e : Env ThreadCall) (verify : Bool) (fuel num : ℕ) (w : World Call Channel)
      → let received = (rx_thread fuel e (fresh num)).1.log in
        let sent = (tx_thread verify fuel e (fresh num)).1.log in
        ((within rx_buffer_count received ≡ true) × ((drive k received d w).0 ≡ ok tt))
        × ((within tx_buffer_count sent ≡ true) × ((drive k sent d w).0 ≡ ok tt))
  threads_drive e verify fuel num w =
      let received = (rx_thread fuel e (fresh num)).1.log in
      let sent = (tx_thread verify fuel e (fresh num)).1.log in
      let i = rx_thread_within e fuel num in
      let j = tx_thread_within e verify fuel num in
      (
        (i, drive_returns received w i),
        (j, drive_returns sent w (within_more tx_buffer_count buffer_count sent (omega arith) j)),
      )
