-- ===== src/Messaging/Firmware/Ready.antt =====
-- When the firmware's module starts to send: not before every processor has announced itself, and from
-- then on at each tick.
use software_prototypes.Base.{
  ℕ, ◌≡◌, ◌⊎◌, inr, refl, ap, ◌∙◌, Bool, true, false, not, List, [], ◌∷◌, ◌==◌, ◌&&◌, ◌||◌, ◌+◌,
  ◌^◌, ◌<◌, All, arith,
}
use software_prototypes.Machine.{Env, World, ok}
use software_prototypes.Messaging.Firmware.{
  Channel, Firmware, FirmwareCall, fresh_channels, mark, ipi_handler, all_init, exchange, send_loop,
  xpfw_send_ipi, Event, ipi, tick, handle, run, booted,
}
use software_prototypes.Messaging.Firmware.Rounds.{IsEcho, round, xpfw_send_ipi_rounds}

-- Whether a message came from this processor.
unfoldable pub announced : (mask : ℕ) → List Event → Bool
announced mask [] = false
announced mask (ipi src_mask ∷ vs) = mask == src_mask || announced mask vs
announced mask (tick ∷ vs) = announced mask vs

unfoldable pub elem : ℕ → List ℕ → Bool
elem m [] = false
elem m (x ∷ xs) = x == m || elem m xs

-- Some channel of this mask is not initialised; every channel of this mask is.
waits : (mask : ℕ) → List Channel → Bool
waits mask [] = false
waits mask (c ∷ cs) = (c.mask == mask && not c.init) || waits mask cs

ready : (mask : ℕ) → List Channel → Bool
ready mask [] = true
ready mask (c ∷ cs) = (not (c.mask == mask) || c.init) && ready mask cs

waits-fresh : (m : ℕ) (ms : List ℕ) → elem m ms ≡ true → waits m (fresh_channels ms) ≡ true
unfolding waits elem fresh_channels
waits-fresh m [] h = cc
waits-fresh m (x ∷ xs) h = ground (arith, h, waits-fresh m xs)

waits-mark :
    (m s : ℕ) (cs : List Channel)
    → (m == s) ≡ false
    → waits m cs ≡ true
    → waits m (mark s cs) ≡ true
unfolding waits mark
waits-mark m s [] h q = q
waits-mark m s (c ∷ cs) h q = ground (arith, h, q, waits-mark m s cs)

all_init-waits : (m : ℕ) (cs : List Channel) → waits m cs ≡ true → all_init cs ≡ false
unfolding waits all_init
all_init-waits m [] h = cc
all_init-waits m (c ∷ cs) h = ground (arith, h, all_init-waits m cs)

ready-mark_self : (m : ℕ) (cs : List Channel) → ready m (mark m cs) ≡ true
unfolding ready mark
ready-mark_self m [] = refl
ready-mark_self m (c ∷ cs) = ground (arith, ready-mark_self m cs)

ready-mark : (m s : ℕ) (cs : List Channel) → ready m cs ≡ true → ready m (mark s cs) ≡ true
unfolding ready mark
ready-mark m s [] h = refl
ready-mark m s (c ∷ cs) h = ground (arith, h, ready-mark m s cs)

-- The masks of a table.
unfoldable pub mask_list : List Channel → List ℕ
mask_list [] = []
mask_list (c ∷ cs) = c.mask ∷ mask_list cs

mask_list-mark : (s : ℕ) (cs : List Channel) → mask_list (mark s cs) ≡ mask_list cs
unfolding mask_list mark
mask_list-mark s [] = refl
mask_list-mark s (c ∷ cs) = ground (arith, mask_list-mark s cs)

mask_list-fresh : (ms : List ℕ) → mask_list (fresh_channels ms) ≡ ms
unfolding mask_list fresh_channels
mask_list-fresh [] = refl
mask_list-fresh (m ∷ ms) = ap (λ l. m ∷ l) (mask_list-fresh ms)

All-weaken : (P Q : ℕ → Type 0) → ((m : ℕ) → P m → Q m) → (ms : List ℕ) → All P ms → All Q ms
All-weaken P Q f [] h = tt
All-weaken P Q f (m ∷ ms) (h, hs) = (f m h, All-weaken P Q f ms hs)

all_init-ready :
    (cs : List Channel) → All (λ m. ready m cs ≡ true) (mask_list cs) → all_init cs ≡ true
unfolding ready mask_list all_init
all_init-ready [] h = refl
all_init-ready (c ∷ cs) (h, hs) = ground (
  arith,
  h,
  all_init-ready cs
      (All-weaken _ _ (λ m (p : ready m (c ∷ cs) ≡ true). ground arith) (mask_list cs) hs),
)

module _ (e : Env FirmwareCall) where
  exchange_frame :
      (cnt mask : ℕ) (w : World FirmwareCall Firmware)
      → let (r, w') = exchange cnt mask e w in
        ((r ≡ ok true) ⊎ (r ≡ ok false)) × (w'.globals ≡ w.globals)
  unfolding exchange
  exchange_frame cnt mask w = ground arith

  pub send_loop_frame :
      (cnt : ℕ) (cs : List Channel) (w : World FirmwareCall Firmware)
      → let (r, w') = send_loop cnt cs e w in (r ≡ ok tt) × (w'.globals ≡ w.globals)
  unfolding send_loop
  send_loop_frame cnt [] w = (refl, refl)
  send_loop_frame cnt (c ∷ cs) w =
      ground
        (arith, exchange_frame cnt c.mask w, send_loop_frame cnt cs ((exchange cnt c.mask e w).1))

  pub xpfw_send_ipi_frame :
      (w : World FirmwareCall Firmware)
      → let (r, w') = xpfw_send_ipi e w in (r ≡ ok tt) × (w'.globals.channels ≡ w.globals.channels)
  unfolding xpfw_send_ipi
  xpfw_send_ipi_frame w = ground (arith, send_loop_frame w.globals.cnt w.globals.channels w)

  handle_ok : (v : Event) (w : World FirmwareCall Firmware) → (handle v e w).0 ≡ ok tt
  unfolding handle ipi_handler
  handle_ok (ipi s) w = refl
  handle_ok tick w = (xpfw_send_ipi_frame w).0

  run_step :
      (v : Event) (vs : List Event) (w : World FirmwareCall Firmware)
      → run (v ∷ vs) e w ≡ run vs e (handle v e w).1
  unfolding run
  run_step v vs w = ground (arith, handle_ok v w)

  pub run_ok : (vs : List Event) (w : World FirmwareCall Firmware) → (run vs e w).0 ≡ ok tt
  unfolding run
  run_ok [] w = refl
  run_ok (v ∷ vs) w = rw (run_step v vs w) (run_ok vs (handle v e w).1)

  handle-waits :
      (m : ℕ) (v : Event) (w : World FirmwareCall Firmware)
      → waits m w.globals.channels ≡ true
      → announced m (v ∷ []) ≡ false
      → let w' = (handle v e w).1 in
        (waits m w'.globals.channels ≡ true) × (w'.log ≡ w.log) × (w'.globals.cnt ≡ w.globals.cnt)
  unfolding handle ipi_handler announced xpfw_send_ipi
  handle-waits m (ipi s) w h n = ground (arith, h, n, waits-mark m s w.globals.channels)
  handle-waits m tick w h n = ground (arith, h, all_init-waits m w.globals.channels)

  run-waits :
      (m : ℕ) (vs : List Event) (w : World FirmwareCall Firmware)
      → waits m w.globals.channels ≡ true
      → announced m vs ≡ false
      → let w' = (run vs e w).1 in (w'.log ≡ w.log) × (w'.globals.cnt ≡ w.globals.cnt)
  unfolding run announced
  run-waits m [] w h n = (refl, refl)
  run-waits m (v ∷ vs) w h n =
      let (a, b) = announced-cons m v vs n in
      let (p, q, r) = handle-waits m v w h a in
      let (x, y) = run-waits m vs (handle v e w).1 p b in rw (run_step v vs w) (x ∙ q, y ∙ r)
    where
      announced-cons :
          (m : ℕ) (v : Event) (vs : List Event)
          → announced m (v ∷ vs) ≡ false
          → (announced m (v ∷ []) ≡ false) × (announced m vs ≡ false)
      announced-cons m (ipi s) vs h = ground (arith, h)
      announced-cons m tick vs h = ground (arith, h)

  -- As long as one processor of the table has not announced itself, the firmware sends nothing and
  -- its counter stays 0, whatever the other messages and ticks are and whatever the calls answer.
  run_silent :
      (ms : List ℕ) (m : ℕ) (vs : List Event)
      → elem m ms ≡ true
      → announced m vs ≡ false
      → let w' = (run vs e (booted ms)).1 in (w'.log ≡ []) × (w'.globals.cnt ≡ 0)
  run_silent ms m vs h n = run-waits m vs (booted ms) (waits-fresh m ms h) n

  handle-ready :
      (m : ℕ) (v : Event) (w : World FirmwareCall Firmware)
      → let cs = w.globals.channels in
        let cs' = (handle v e w).1.globals.channels in
        (ready m cs ≡ true → ready m cs' ≡ true)
        × (announced m (v ∷ []) ≡ true → ready m cs' ≡ true)
        × (mask_list cs' ≡ mask_list cs)
  unfolding handle ipi_handler announced
  handle-ready m (ipi s) w =
      let cs = w.globals.channels in
      (λ h. ready-mark m s cs h, λ h. ground (arith, h, ready-mark_self m cs), mask_list-mark s cs)
  handle-ready m tick w =
      let (_, q) = xpfw_send_ipi_frame w in (λ h. rw q h, λ h. cc, ap mask_list q)

  run-ready :
      (m : ℕ) (vs : List Event) (w : World FirmwareCall Firmware)
      → (ready m w.globals.channels ≡ true) ⊎ (announced m vs ≡ true)
      → ready m (run vs e w).1.globals.channels ≡ true
  unfolding run announced
  run-ready m [] w h = ground (arith, h)
  run-ready m (v ∷ vs) w h =
      let (p, q, _) = handle-ready m v w in
      rw (run_step v vs w) (run-ready m vs (handle v e w).1 (now m v vs h p q))
    where
      now :
          (m : ℕ) (v : Event) (vs : List Event) {a b : Bool}
          → (a ≡ true) ⊎ (announced m (v ∷ vs) ≡ true)
          → (a ≡ true → b ≡ true)
          → (announced m (v ∷ []) ≡ true → b ≡ true)
          → (b ≡ true) ⊎ (announced m vs ≡ true)
      now m (ipi s) vs h p q = ground (arith, h, p, q)
      now m tick vs h p q = ground (arith, h, p, q)

  run-mask_list :
      (vs : List Event) (w : World FirmwareCall Firmware)
      → mask_list (run vs e w).1.globals.channels ≡ mask_list w.globals.channels
  unfolding run
  run-mask_list [] w = refl
  run-mask_list (v ∷ vs) w =
      rw (run_step v vs w) (run-mask_list vs (handle v e w).1 ∙ (handle-ready 0 v w).2)

  -- Once every processor of the table has announced itself, all channels are initialised.
  pub run-all_init :
      (ms : List ℕ) (vs : List Event)
      → All (λ m. announced m vs ≡ true) ms
      → all_init (run vs e (booted ms)).1.globals.channels ≡ true
  run-all_init ms vs h =
      let cs = (run vs e (booted ms)).1.globals.channels in
      let same = run-mask_list vs (booted ms) ∙ mask_list-fresh ms in
      all_init-ready cs (
        rw same (
          All-weaken _ _ (λ m (a : announced m vs ≡ true). run-ready m vs (booted ms) (inr a)) ms
            h))

  -- Once every processor of the table has announced itself, in any order and with anything between,
  -- each tick exchanges the counter with every channel in the order of the table, among processors that
  -- send back what they are sent and as long as the counter is below 2^16.
  pub run_sends :
      (ms : List ℕ) (vs : List Event)
      → IsEcho e
      → All (λ m. announced m vs ≡ true) ms
      → (run vs e (booted ms)).1.globals.cnt < 2 ^ 16
      → let w = (run vs e (booted ms)).1 in
        let w' = (handle tick e w).1 in
        (w'.log ≡ round w.globals.cnt w.globals.channels w.log)
        × (w'.globals.cnt ≡ w.globals.cnt + 1)
        × (mask_list w.globals.channels ≡ ms)
  unfolding handle
  run_sends ms vs echo h b =
      let w = (run vs e (booted ms)).1 in
      ground (
        arith,
        b,
        xpfw_send_ipi_rounds e echo w (run-all_init ms vs h),
        run-mask_list vs (booted ms),
        mask_list-fresh ms,
      )
