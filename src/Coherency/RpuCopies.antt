-- ===== src/Coherency/RpuCopies.antt =====
-- What the R5 of the cache coherency demos makes of the memory: a copy of the bytes of the message.
use Prim.Native.Nat.{bit_and}
use software_prototypes.Base.{
  ℕ, ◌≡◌, ◌⊎◌, inl, inr, refl, ◌∙◌, Bool, Bool-cases, true, false, not, ◌||◌, List, [], ◌∷◌, ◌==◌,
  ◌+◌, ◌<◌, ◌≤◌, if◌then◌else◌, arith,
}
use software_prototypes.Machine.{success, Env, World, ok}
use software_prototypes.Copy.{
  Memory, copy_loop, span, span_lem, copy_loop_inside, copy_loop_outside,
}
use software_prototypes.Coherency.Rpu.{
  RpuCall, get_interrupt_status, read_message, clear_interrupt_status, Message, blank_message,
  serve, ipi_intr_handler,
}

-- The regions have no byte in common.
unfoldable pub Apart : (src dest bytes : ℕ) → Type 0
Apart src dest bytes = (src + bytes ≤ dest) ⊎ (dest + bytes ≤ src)

-- A memory is another one with so many bytes copied.
pub record Copied (src dest bytes : ℕ) (m m' : Memory) : Type 0 where
  pub inside : (i : ℕ) → i < bytes → m' (dest + i) ≡ m (src + i)
  pub outside : (a : ℕ) → (a < dest) ⊎ (dest + bytes ≤ a) → m' a ≡ m a

bytewise : (n : ℕ) → span 1 n ≡ n
bytewise n = span_lem 1 n ∙ omega arith

module _ (src dest bytes : ℕ) (apart : Apart src dest bytes) where
  pub copy_loop-Copied : (m : Memory) → Copied src dest bytes m (copy_loop 1 bytes src dest m)
  unfolding Apart
  copy_loop-Copied m = record {
    inside = λ i b.
        copy_loop_inside 1 bytes src dest m i (omega (arith, bytewise bytes, b))
          (ground (arith, bytewise bytes, apart));
    outside = λ a h. copy_loop_outside 1 bytes src dest m a (ground (arith, bytewise bytes, h));
  }

  -- A second copy changes nothing.
  Copied-again :
      (m m1 m2 : Memory)
      → Copied src dest bytes m m1
      → Copied src dest bytes m1 m2
      → Copied src dest bytes m m2
  unfolding Apart
  Copied-again m m1 m2 c1 c2 = record {
    inside = λ i b. c2.inside i b ∙ c1.outside (src + i) (ground (arith, apart, b));
    outside = λ a h. c2.outside a h ∙ c1.outside a h;
  }

-- Some target has a bit in the status.
unfoldable pub any_source : (src_mask : ℕ) → List ℕ → Bool
any_source src_mask [] = false
any_source src_mask (mask ∷ masks) = not (bit_and src_mask mask == 0) || any_source src_mask masks

module _ (src dest bytes src_mask : ℕ) where
  -- Every message is this one.
  abbrev pub messages : Env RpuCall
  messages = record {
    status = λ _ _. success;
    value = λ _ _. src_mask;
    words = λ _ _. src ∷ dest ∷ bytes ∷ [];
  }

  abbrev message : Message
  message = record { src = src; dst = dest; bytes = bytes }

  -- The world behind one message.
  abbrev served : (mask : ℕ) → World RpuCall Memory → World RpuCall Memory
  served mask w = record {
    log = clear_interrupt_status mask ∷ read_message mask ∷ w.log;
    globals = copy_loop 1 bytes src dest w.globals;
  }

  serve_step :
      (b : Message) (mask : ℕ) (masks : List ℕ) (w : World RpuCall Memory)
      → serve src_mask b (mask ∷ masks) messages w ≡ (
          if bit_and src_mask mask == 0
          then serve src_mask b masks messages w
          else serve src_mask message masks messages (served mask w))
  unfolding serve
  serve_step b mask masks w = ground arith

  serve_none :
      (b : Message) (masks : List ℕ) (w : World RpuCall Memory)
      → any_source src_mask masks ≡ false
      → (serve src_mask b masks messages w).1.globals ≡ w.globals
  unfolding any_source serve
  serve_none b [] w h = refl
  serve_none b (mask ∷ masks) w h = ground (arith, h, serve_none b masks w)

  serve_returns :
      (b : Message) (masks : List ℕ) (w : World RpuCall Memory)
      → (serve src_mask b masks messages w).0 ≡ ok tt
  unfolding serve
  serve_returns b [] w = refl
  serve_returns b (mask ∷ masks) w =
      ground (arith, serve_returns b masks w, serve_returns message masks (served mask w))

  module _ (apart : Apart src dest bytes) where
    serve-Copied :
        (b : Message) (masks : List ℕ) (w : World RpuCall Memory)
        → any_source src_mask masks ≡ true
        → Copied src dest bytes w.globals (serve src_mask b masks messages w).1.globals
    unfolding any_source
    serve-Copied b [] w h = absurd (ground (arith, h))
    serve-Copied b (mask ∷ masks) w h = elim (Bool-cases (bit_and src_mask mask == 0)) [
      | inl y ↦
          rw (serve_step b mask masks w) (rw y (serve-Copied b masks w (ground (arith, y, h))))
      | inr y ↦
          let w' = served mask w in
          let c = copy_loop-Copied src dest bytes apart w.globals in
          rw (serve_step b mask masks w) (
            rw y (elim (Bool-cases (any_source src_mask masks)) [
              | inl z ↦
                  Copied-again src dest bytes apart w.globals w'.globals _ c
                    (serve-Copied message masks w' z)
              | inr z ↦ rw (serve_none message masks w' z) c
            ]))
    ]

    -- Where each read gives the same message, whose regions have no byte in common, and some target has a
    -- bit in the interrupt status: the handler returns, and has copied the bytes of the message,
    -- however many targets have one; no other byte of the memory has changed.
    pub ipi_intr_handler-Copied :
        (targets : List ℕ) (m : Memory)
        → any_source src_mask targets ≡ true
        → let (r, w) = ipi_intr_handler targets messages (record { log = []; globals = m }) in
          (r ≡ ok tt) × Copied src dest bytes m w.globals
    unfolding ipi_intr_handler
    ipi_intr_handler-Copied targets m h =
        let w : World RpuCall Memory = record { log = get_interrupt_status ∷ []; globals = m } in
        (serve_returns blank_message targets w, serve-Copied blank_message targets w h)
