-- ===== src/Messaging/Boot/Turns.antt =====
-- How many calls the starting processors of zynqmp-ipi-messaging/Software have left after a number of
-- turns, and how far the firmware counts.
use software_prototypes.Base.{
  ℕ, suc, zero, ◌≡◌, length, refl, Bool, true, false, List, [], ◌∷◌, Option, none, some, ◌==◌, ◌+◌,
  ◌-◌, ◌<◌, ◌≤◌, if◌then◌else◌, arith,
}
use software_prototypes.Machine.{Env, World}
use software_prototypes.Messaging.Firmware.{
  Firmware, FirmwareCall, handle, ipi_handler, xpfw_send_ipi,
}
use software_prototypes.Messaging.Firmware.Ready.{send_loop_frame}
use software_prototypes.Messaging.Boot.{
  BootCall, mb0_main, mb1_main, r5_0_main, r5_1_main, apu_main, Processor, Site, go_on, advance,
  Move, tick, boot, reaches, deliver, move, moves, powered_on,
}
use software_prototypes.Messaging.Boot.Order.{ended, all_ended}

-- The calls that the processor at an index has left, 0 if there is none.
unfoldable pub remaining : (index : ℕ) → List Processor → ℕ
remaining i [] = 0
remaining zero (p ∷ ps) = length p.left
remaining (suc i) (p ∷ ps) = remaining i ps

-- How often the processor at an index moves.
unfoldable pub turns : (index : ℕ) → List Move → ℕ
turns i [] = 0
turns i (tick ∷ ms) = turns i ms
turns i (boot j ∷ ms) = if j == i then suc (turns i ms) else turns i ms

length-go_on : (l : List BootCall) (p : Processor) → length (go_on l p).left ≡ length l - 1
unfolding go_on
length-go_on [] p = refl
length-go_on (c ∷ l) p = ground arith

remaining-advance :
    (i j : ℕ) (ps : List Processor)
    → remaining i (advance j ps) ≡ (if j == i then remaining i ps - 1 else remaining i ps)
unfolding remaining advance
remaining-advance i j [] = ground arith
remaining-advance zero zero (p ∷ ps) = length-go_on p.left p
remaining-advance zero (suc j) (p ∷ ps) = ground arith
remaining-advance (suc i) zero (p ∷ ps) = ground arith
remaining-advance (suc i) (suc j) (p ∷ ps) = ground (arith, remaining-advance i j ps)

module _ (core : ℕ → Bool) (e : Env FirmwareCall) where
  pub remaining-moves :
      (i : ℕ) (ms : List Move) (s : Site)
      → remaining i (moves core e ms s).processors ≡ remaining i s.processors - turns i ms
  unfolding moves move turns
  remaining-moves i [] s = omega arith
  remaining-moves i (tick ∷ ms) s = remaining-moves i ms (move core e tick s)
  remaining-moves i (boot j ∷ ms) s =
      ground
        (arith, remaining-moves i ms (move core e (boot j) s), remaining-advance i j s.processors)

-- How often the firmware's task runs.
unfoldable pub ticks : List Move → ℕ
ticks [] = 0
ticks (tick ∷ ms) = suc (ticks ms)
ticks (boot i ∷ ms) = ticks ms

module _ (core : ℕ → Bool) (e : Env FirmwareCall) where
  xpfw_send_ipi_cnt :
      (w : World FirmwareCall Firmware) → (xpfw_send_ipi e w).1.globals.cnt ≤ w.globals.cnt + 1
  unfolding xpfw_send_ipi
  xpfw_send_ipi_cnt w = ground (arith, send_loop_frame e w.globals.cnt w.globals.channels w)

  deliver_cnt :
      (r : Option ℕ) (w : World FirmwareCall Firmware) → (deliver e r w).globals.cnt ≡ w.globals.cnt
  unfolding deliver handle ipi_handler
  deliver_cnt none w = refl
  deliver_cnt (some m) w = refl

  pub cnt_ticks :
      (ms : List Move) (s : Site)
      → (moves core e ms s).firmware.globals.cnt ≤ s.firmware.globals.cnt + ticks ms
  unfolding moves move ticks handle
  cnt_ticks [] s = omega arith
  cnt_ticks (tick ∷ ms) s =
      omega (arith, cnt_ticks ms (move core e tick s), xpfw_send_ipi_cnt s.firmware)
  cnt_ticks (boot i ∷ ms) s = omega (
    arith,
    cnt_ticks ms (move core e (boot i) s),
    deliver_cnt (reaches core i s.processors) s.firmware,
  )

pub all_ended-remaining :
    (ps : List Processor) → ((i : ℕ) → remaining i ps ≡ 0) → all_ended ps ≡ true
unfolding all_ended ended remaining
all_ended-remaining [] h = refl
all_ended-remaining (p ∷ ps) h =
    ground (arith, none_left p.left (h 0), all_ended-remaining ps (λ i. h (suc i)))
  where
    none_left : (l : List BootCall) → length l ≡ 0 → elim l [ [] ↦ true | c ∷ k ↦ false ] ≡ true
    none_left [] h = refl
    none_left (c ∷ l) h = ground (arith, h)

pub remaining-powered_on :
    (rpu0 rpu1 : ℕ) (ms : List Move)
    → ((i : ℕ) → i < 5 → 13 ≤ turns i ms)
    → (i : ℕ) → remaining i (powered_on rpu0 rpu1).processors - turns i ms ≡ 0
unfolding remaining powered_on mb0_main mb1_main r5_0_main r5_1_main apu_main
remaining-powered_on rpu0 rpu1 ms h zero = ground (arith, h 0)
remaining-powered_on rpu0 rpu1 ms h (suc zero) = ground (arith, h 1)
remaining-powered_on rpu0 rpu1 ms h (suc (suc zero)) = ground (arith, h 2)
remaining-powered_on rpu0 rpu1 ms h (suc (suc (suc zero))) = ground (arith, h 3)
remaining-powered_on rpu0 rpu1 ms h (suc (suc (suc (suc zero)))) = ground (arith, h 4)
remaining-powered_on rpu0 rpu1 ms h (suc (suc (suc (suc (suc i))))) = omega arith
