-- ===== src/Messaging/Boot/Order.antt =====
-- The starts of the five processors and the ticks of the firmware in any order, and the channels of
-- the firmware between them.
use software_prototypes.Base.{
  ℕ, suc, zero, ◌≡◌, inl, inr, refl, ap, Bool, Bool-cases, true, false, not, List, [], ◌∷◌, Option,
  none, some, ◌==◌, ◌&&◌, if◌then◌else◌, arith,
}
use software_prototypes.Messaging.Firmware.{Channel, mark, all_init}
use software_prototypes.Messaging.Firmware.Ready.{elem, mask_list}
use software_prototypes.Messaging.Boot.{
  BootCall, id_word, triggers, request_word, Processor, go_on, advance, call_reaches, reaches,
}

-- Whether the calls behind those made announce the processor, with the last of them only.
unfoldable pub announces_last : (made left : List BootCall) → Bool
announces_last made [] = true
announces_last made (c ∷ []) = triggers c && request_word (c ∷ made) == id_word
announces_last made (c ∷ d ∷ l) = not (triggers c) && announces_last (c ∷ made) (d ∷ l)

unfoldable pub ended : Processor → Bool
ended p = elim p.left [ [] ↦ true | c ∷ l ↦ false ]

-- A processor that has ended its start is initialised, and no other is.
abbrev pub Sound : Processor → Channel → Type 0
Sound p c = (p.mask ≡ c.mask) × (ended p ≡ c.init) × (announces_last p.made p.left ≡ true)

abbrev pub Aligned : List Processor → List Channel → Type 0
Aligned [] [] = Unit
Aligned [] (c ∷ cs) = ¬ Unit {0}
Aligned (p ∷ ps) [] = ¬ Unit {0}
Aligned (p ∷ ps) (c ∷ cs) = Sound p c × Aligned ps cs

unfoldable pub processor_masks : List Processor → List ℕ
processor_masks [] = []
processor_masks (p ∷ ps) = p.mask ∷ processor_masks ps

unfoldable pub all_ended : List Processor → Bool
all_ended [] = true
all_ended (p ∷ ps) = ended p && all_ended ps

unfoldable pub distinct : List ℕ → Bool
distinct [] = true
distinct (m ∷ ms) = not (elem m ms) && distinct ms

pub all_init-ended :
    (ps : List Processor) (cs : List Channel) → Aligned ps cs → all_init cs ≡ all_ended ps
unfolding all_init all_ended
all_init-ended [] [] h = refl
all_init-ended [] (c ∷ cs) h = absurd (h tt)
all_init-ended (p ∷ ps) [] h = absurd (h tt)
all_init-ended (p ∷ ps) (c ∷ cs) (h, hs) = ground (arith, h, all_init-ended ps cs hs)

mark_other :
    (m : ℕ) (ps : List Processor) (cs : List Channel)
    → Aligned ps cs
    → elem m (processor_masks ps) ≡ false
    → mark m cs ≡ cs
unfolding mark processor_masks elem
mark_other m ps [] h n = refl
mark_other m [] (c ∷ cs) h n = absurd (h tt)
mark_other m (p ∷ ps) (c ∷ cs) (h, hs) n = ground (arith, h, n, mark_other m ps cs hs)

pub advance_masks :
    (i : ℕ) (ps : List Processor) → processor_masks (advance i ps) ≡ processor_masks ps
unfolding processor_masks advance go_on
advance_masks i [] = refl
advance_masks zero (p ∷ ps) = ap (λ m. m ∷ processor_masks ps) (same p.left p)
  where
    same : (l : List BootCall) (p : Processor) → (go_on l p).mask ≡ p.mask
    same [] p = refl
    same (c ∷ l) p = refl
advance_masks (suc i) (p ∷ ps) = ap (λ ms. p.mask ∷ ms) (advance_masks i ps)

module _ (core : ℕ → Bool) (known : core id_word ≡ true) where
  go_on_lem :
      (l : List BootCall) (p : Processor) (c : Channel)
      → p.mask ≡ c.mask
      → elim l [ [] ↦ true | b ∷ k ↦ false ] ≡ c.init
      → announces_last p.made l ≡ true
      → Sound (go_on l p) (if call_reaches core l p then record c { init = true } else c)
        × (call_reaches core l p ≡ true → c.init ≡ false)
  unfolding go_on call_reaches announces_last ended
  go_on_lem [] p c m h a = ground (arith, m, h, a)
  go_on_lem (b ∷ []) p c m h a = ground (arith, m, h, a, known)
  go_on_lem (b ∷ d ∷ l) p c m h a = ground (arith, m, h, a)

  -- The channels behind the call of a processor.
  abbrev pub channels_after : Option ℕ → List Channel → List Channel
  channels_after none cs = cs
  channels_after (some m) cs = mark m cs

  reaches_mask :
      (i m : ℕ) (ps : List Processor)
      → reaches core i ps ≡ some m
      → elem m (processor_masks ps) ≡ true
  unfolding reaches elem processor_masks
  reaches_mask i m [] h = ground (arith, h)
  reaches_mask zero m (p ∷ ps) h = ground (arith, h)
  reaches_mask (suc i) m (p ∷ ps) h = ground (arith, reaches_mask i m ps h)

  mark_head :
      (m : ℕ) (c : Channel) (cs : List Channel)
      → m ≡ c.mask
      → c.init ≡ false
      → mark m (c ∷ cs) ≡ record c { init = true } ∷ mark m cs
  unfolding mark
  mark_head m c cs h n = ground (arith, h, n)

  channels_after-cons :
      (r : Option ℕ) (c : Channel) (cs : List Channel)
      → ((m : ℕ) → r ≡ some m → (c.mask == m) ≡ false)
      → channels_after r (c ∷ cs) ≡ c ∷ channels_after r cs
  unfolding mark
  channels_after-cons none c cs h = refl
  channels_after-cons (some m) c cs h = ground (arith, h m refl)

  pub advance-Aligned :
      (i : ℕ) (ps : List Processor) (cs : List Channel)
      → distinct (processor_masks ps) ≡ true
      → Aligned ps cs
      → Aligned (advance i ps) (channels_after (reaches core i ps) cs)
  unfolding advance reaches distinct processor_masks ended
  advance-Aligned i [] cs d h = h
  advance-Aligned i (p ∷ ps) [] d h = absurd (h tt)
  advance-Aligned zero (p ∷ ps) (c ∷ cs) d ((m, n, a), hs) =
      let (sound, before) = go_on_lem p.left p c m n a in
      let other = mark_other p.mask ps cs hs (ground (arith, d)) in
      elim (Bool-cases (call_reaches core p.left p)) [
        | inl y ↦ rw (y, mark_head p.mask c cs m (before y), other) (rw y at sound, hs)
        | inr y ↦ rw y (rw y at sound, hs)
      ]
  advance-Aligned (suc i) (p ∷ ps) (c ∷ cs) d ((m, n, a), hs) =
      let other : (k : ℕ) → reaches core i ps ≡ some k → (c.mask == k) ≡ false =
        λ k e. ground (arith, d, m, reaches_mask i k ps e) in
      rw (channels_after-cons (reaches core i ps) c cs other)
        ((m, n, a), advance-Aligned i ps cs (ground (arith, d)) hs)

ended-go_on :
    (l : List BootCall) (p : Processor)
    → elim l [ [] ↦ true | b ∷ k ↦ false ] ≡ true
    → ended (go_on l p) ≡ true
unfolding ended go_on
ended-go_on [] p h = refl
ended-go_on (c ∷ l) p h = ground (arith, h)

pub all_ended-advance :
    (i : ℕ) (ps : List Processor) → all_ended ps ≡ true → all_ended (advance i ps) ≡ true
unfolding all_ended advance ended
all_ended-advance i [] h = h
all_ended-advance zero (p ∷ ps) h = ground (arith, h, ended-go_on p.left p)
all_ended-advance (suc i) (p ∷ ps) h = ground (arith, h, all_ended-advance i ps)

pub processor_masks-mask_list :
    (ps : List Processor) (cs : List Channel) → Aligned ps cs → mask_list cs ≡ processor_masks ps
unfolding processor_masks mask_list
processor_masks-mask_list [] [] h = refl
processor_masks-mask_list [] (c ∷ cs) h = absurd (h tt)
processor_masks-mask_list (p ∷ ps) [] h = absurd (h tt)
processor_masks-mask_list (p ∷ ps) (c ∷ cs) (h, hs) =
    ground (arith, h, processor_masks-mask_list ps cs hs)
