-- ===== src/Messaging/Firmware/Rounds.antt =====
-- The rounds of messages of `XPfw_SendIpi`, among processors that send back what they are sent.
use software_prototypes.Base.{
  ℕ, ◌≡◌, refl, true, false, List, [], ◌∷◌, ◌==◌, ◌%◌, ◌^◌, ltb, ◌<◌, ◌≤◌, if◌then◌else◌, arith,
}
use software_prototypes.Word.{add32}
use software_prototypes.Machine.{success, Env, World, ok}
use software_prototypes.Messaging.Firmware.{
  Channel, Firmware, FirmwareCall, ipi_write_message, ipi_trigger, ipi_poll_for_ack,
  ipi_read_response, received, all_init, exchange, send_loop, xpfw_send_ipi,
}

-- The word last written for a channel.
unfoldable pub last_written : (mask : ℕ) → List FirmwareCall → ℕ
last_written mask [] = 0
last_written mask (ipi_write_message m word ∷ l) = if m == mask then word else last_written mask l
last_written mask (ipi_trigger m ∷ l) = last_written mask l
last_written mask (ipi_poll_for_ack m ∷ l) = last_written mask l
last_written mask (ipi_read_response m ∷ l) = last_written mask l
last_written mask (received m word ∷ l) = last_written mask l

-- Every call succeeds, and a response is the word that was written for the channel.
pub record IsEcho (e : Env FirmwareCall) : Type 0 where
  pub succeeds : (l : List FirmwareCall) (c : FirmwareCall) → e.status l c ≡ success
  pub echoes :
      (l : List FirmwareCall) (mask : ℕ)
      → e.words l (ipi_read_response mask) ≡ last_written mask l ∷ []

-- The calls of one exchange, newest first, up to the response.
abbrev pub asked : (cnt mask : ℕ) → List FirmwareCall → List FirmwareCall
asked cnt mask l =
    ipi_read_response mask
    ∷ ipi_poll_for_ack mask
    ∷ ipi_trigger mask
    ∷ ipi_write_message mask cnt
    ∷ l

-- A whole round.
unfoldable pub round : (cnt : ℕ) → List Channel → List FirmwareCall → List FirmwareCall
round cnt [] l = l
round cnt (c ∷ cs) l = round cnt cs (received c.mask cnt ∷ asked cnt c.mask l)

-- A round that ends at the response of the first channel.
abbrev pub cut_round : (cnt : ℕ) → List Channel → List FirmwareCall → List FirmwareCall
cut_round cnt [] l = l
cut_round cnt (c ∷ cs) l = asked cnt c.mask l

module _ (e : Env FirmwareCall) (echo : IsEcho e) where
  exchange_lem :
      (cnt mask : ℕ) (w : World FirmwareCall Firmware)
      → exchange cnt mask e w ≡ (
          if cnt % 2 ^ 16 == cnt
          then (ok true, record w { log = received mask cnt ∷ asked cnt mask w.log })
          else (ok false, record w { log = asked cnt mask w.log }))
  unfolding exchange last_written
  exchange_lem cnt mask w =
      let l1 = ipi_write_message mask cnt ∷ w.log in
      let l2 = ipi_trigger mask ∷ l1 in
      let l3 = ipi_poll_for_ack mask ∷ l2 in
      ground (
        arith,
        echo.succeeds w.log (ipi_write_message mask cnt),
        echo.succeeds l1 (ipi_trigger mask),
        echo.succeeds l2 (ipi_poll_for_ack mask),
        echo.succeeds l3 (ipi_read_response mask),
        echo.echoes l3 mask,
      )

  send_loop_whole :
      (cnt : ℕ) (cs : List Channel) (w : World FirmwareCall Firmware)
      → cnt < 2 ^ 16
      → send_loop cnt cs e w ≡ (ok tt, record w { log = round cnt cs w.log })
  unfolding send_loop round
  send_loop_whole cnt [] w h = refl
  send_loop_whole cnt (c ∷ cs) w h = ground (
    arith,
    exchange_lem cnt c.mask w,
    send_loop_whole cnt cs (record w { log = received c.mask cnt ∷ asked cnt c.mask w.log }) h,
  )

  send_loop_cut :
      (cnt : ℕ) (cs : List Channel) (w : World FirmwareCall Firmware)
      → 2 ^ 16 ≤ cnt
      → send_loop cnt cs e w ≡ (ok tt, record w { log = cut_round cnt cs w.log })
  unfolding send_loop
  send_loop_cut cnt [] w h = refl
  send_loop_cut cnt (c ∷ cs) w h = ground (arith, exchange_lem cnt c.mask w)

  -- Among processors that send back what they are sent, `XPfw_SendIpi` with all channels initialised
  -- exchanges the counter with every channel, in the order of the table, as long as the counter is below
  -- 2^16; from there on it gives up at the first channel, whose response it takes for invalid. The
  -- counter goes up in either case.
  pub xpfw_send_ipi_rounds :
      (w : World FirmwareCall Firmware)
      → all_init w.globals.channels ≡ true
      → let cnt = w.globals.cnt in
        let cs = w.globals.channels in
        xpfw_send_ipi e w ≡ (
          ok tt,
          record {
            log = if ltb cnt (2 ^ 16) then round cnt cs w.log else cut_round cnt cs w.log;
            globals = record w.globals { cnt = add32 cnt 1 };
          },
        )
  unfolding xpfw_send_ipi
  xpfw_send_ipi_rounds w h =
      let cnt = w.globals.cnt in
      let cs = w.globals.channels in
      ground (arith, h, send_loop_whole cnt cs w, send_loop_cut cnt cs w)
