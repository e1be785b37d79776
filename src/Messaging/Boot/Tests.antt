-- ===== src/Messaging/Boot/Tests.antt =====
-- A start of the processors one after the other, with a tick between.
use software_prototypes.Base.{ℕ, ◌≡◌, ◌⊎◌, refl, Bool, true, List, [], ◌∷◌, ◌++◌, replicate, ◌==◌}
use software_prototypes.Messaging.Firmware.{masks}
use software_prototypes.Messaging.Firmware.Ready.{elem}
use software_prototypes.Messaging.System.{processors}
use software_prototypes.Messaging.Boot.{id_word, Move, tick, boot, moves, powered_on}
use software_prototypes.Messaging.Boot.Order.{all_ended, distinct}
use software_prototypes.Messaging.Boot.Starts.{sends_after_starts}

abbrev core : ℕ → Bool
core word = word == id_word

abbrev targets : List ℕ
targets = 0x10000 ∷ []

apart : distinct (masks 0x100 0x200) ≡ true
unfolding distinct elem
apart = refl

abbrev order : List Move
order =
    replicate 13 (boot 0)
    ++ replicate 13 (boot 2)
    ++ tick ∷ replicate 13 (boot 4)
    ++ replicate 13 (boot 1)
    ++ replicate 13 (boot 3)

sends_after_starts_example :
    let s = moves core (processors 0x100 0x200 targets) order (powered_on 0x100 0x200) in
    (s.firmware.log ≡ []) ⊎ (all_ended s.processors ≡ true)
sends_after_starts_example =
    sends_after_starts 0x100 0x200 apart core refl (processors 0x100 0x200 targets) order
