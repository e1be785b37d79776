-- ===== src/Messaging/Boot/Starts.antt =====
-- The runs of the five processors of zynqmp-ipi-messaging/Software from power-on, with the firmware's ticks
-- at any moment.
use software_prototypes.Base.{
  ℕ, ◌≡◌, ◌⊎◌, inl, refl, ◌∙◌, Bool, true, List, [], ◌∷◌, Option, none, some, arith,
}
use software_prototypes.Machine.{Env, World}
use software_prototypes.Messaging.Firmware.{
  Firmware, FirmwareCall, masks, handle, ipi_handler, xpfw_send_ipi, fresh_channels,
}
use software_prototypes.Messaging.Firmware.Ready.{xpfw_send_ipi_frame}
use software_prototypes.Messaging.System.{processors}
use software_prototypes.Messaging.Boot.{
  id_word, mb0_main, mb1_main, r5_0_main, r5_1_main, apu_main, triggers, request_word, Site,
  advance, Move, tick, boot, reaches, deliver, move, moves, powered_on,
}
use software_prototypes.Messaging.Boot.Order.{
  announces_last, ended, Aligned, processor_masks, all_ended, distinct, all_init-ended,
  advance_masks, channels_after, advance-Aligned, all_ended-advance,
}

record Good (rpu0 rpu1 : ℕ) (s : Site) : Type 0 where
  table : processor_masks s.processors ≡ masks rpu0 rpu1
  aligned : Aligned s.processors s.firmware.globals.channels
  silent : (s.firmware.log ≡ []) ⊎ (all_ended s.processors ≡ true)

module _ (rpu0 rpu1 : ℕ) (apart : distinct (masks rpu0 rpu1) ≡ true) where
  powered_on-Good : Good rpu0 rpu1 (powered_on rpu0 rpu1)
  unfolding powered_on processor_masks fresh_channels announces_last triggers request_word ended
      mb0_main mb1_main r5_0_main r5_1_main apu_main
  powered_on-Good = record {
    table = refl;
    aligned = (
      (refl, refl, refl),
      ((refl, refl, refl), ((refl, refl, refl), ((refl, refl, refl), ((refl, refl, refl), tt)))),
    );
    silent = inl refl;
  }

  module _ (core : ℕ → Bool) (known : core id_word ≡ true) (e : Env FirmwareCall) where
    move-Good : (m : Move) (s : Site) → Good rpu0 rpu1 s → Good rpu0 rpu1 (move core e m s)
    unfolding move deliver handle xpfw_send_ipi ipi_handler
    move-Good tick s g =
        let w = s.firmware in
        let (_, same) = xpfw_send_ipi_frame e w in
        let aligned : Aligned s.processors (xpfw_send_ipi e w).1.globals.channels =
          rw same g.aligned in
        record {
          table = g.table;
          aligned = aligned;
          silent =
              ground (arith, g.silent, all_init-ended s.processors w.globals.channels g.aligned);
        }
    move-Good (boot i) s g =
        let d : distinct (processor_masks s.processors) ≡ true = rw (g.table) apart in
        let a = advance-Aligned core known i s.processors s.firmware.globals.channels d g.aligned in
        record {
          table = advance_masks i s.processors ∙ g.table;
          aligned = channels (reaches core i s.processors) s.firmware a;
          silent = log (reaches core i s.processors) s.firmware g.silent;
        }
      where
        channels :
            (r : Option ℕ) (w : World FirmwareCall Firmware)
            → Aligned (advance i s.processors) (channels_after core known r w.globals.channels)
            → Aligned (advance i s.processors) (deliver e r w).globals.channels
        channels none w a = a
        channels (some m) w a = a

        log :
            (r : Option ℕ) (w : World FirmwareCall Firmware)
            → (w.log ≡ []) ⊎ (all_ended s.processors ≡ true)
            → ((deliver e r w).log ≡ []) ⊎ (all_ended (advance i s.processors) ≡ true)
        log none w h = ground (arith, h, all_ended-advance i s.processors)
        log (some m) w h = ground (arith, h, all_ended-advance i s.processors)

    moves-Good : (ms : List Move) (s : Site) → Good rpu0 rpu1 s → Good rpu0 rpu1 (moves core e ms s)
    unfolding moves
    moves-Good [] s g = g
    moves-Good (m ∷ ms) s g = moves-Good ms (move core e m s) (move-Good m s g)

    -- Nothing was sent, or each of the five processors has made all its calls. This holds of all orders of
    -- the processors' calls and the firmware's ticks, and whatever the firmware's calls answer, where
    -- the processors have different masks and the firmware's core passes on the word that they send.
    pub sends_after_starts :
        (ms : List Move)
        → let s = moves core e ms (powered_on rpu0 rpu1) in
          (s.firmware.log ≡ []) ⊎ (all_ended s.processors ≡ true)
    sends_after_starts ms = (moves-Good ms (powered_on rpu0 rpu1) powered_on-Good).silent
