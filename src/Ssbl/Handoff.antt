-- ===== src/Ssbl/Handoff.antt =====
-- The memory and the address with which zynq-7000-tips-tricks/ssbl/ssbl_main.c hands over.
use Prim.Native.Nat.{bit_or}
use software_prototypes.Base.{ℕ, ◌≡◌, ◌⊎◌, inr, refl, [], ◌∷◌, ◌+◌, ◌/◌, ◌<◌, ◌≤◌, arith}
use software_prototypes.Machine.{Env, World, stop}
use software_prototypes.Copy.{
  Memory, copy_loop, span, span_lem, copy_loop_inside, copy_loop_outside,
}
use software_prototypes.Ssbl.{
  SsblCall, out32, in32, handoff_exit, ocm_high_addr, flash_data_ptr_addr, handoff_ptr_addr,
  low_ocm_size, word_at, main,
}

abbrev pub booted : Memory → World SsblCall Memory
booted m = record { log = []; globals = m }

size : span 4 (low_ocm_size / 4) ≡ low_ocm_size
size = span_lem 4 (low_ocm_size / 4)

module _ (remap : ℕ → Memory → Memory) (e : Env SsblCall) (m : Memory) where
  -- The configuration that is written, the memory behind it, and where the data stand in it.
  abbrev pub configuration : ℕ
  configuration = bit_or (e.value (out32 0xF8000008 0xDF0D ∷ []) (in32 0xF8000910)) 0xF

  abbrev pub remapped : Memory
  remapped = remap configuration m

  abbrev pub flash_data : ℕ
  flash_data = word_at remapped flash_data_ptr_addr

  -- Where the data in flash end below the high on-chip memory: `main` unlocks the configuration, sets its
  -- lower four bits, locks it again, and hands over to the address that stood behind the data's
  -- pointer; then the 192 KB from OCM_HIGH_ADDR are those in flash, and no other byte has changed.
  pub main_handoff :
      flash_data + low_ocm_size ≤ ocm_high_addr
      → let (r, w) = main remap e (booted m) in
        (r ≡ stop)
        × (w.log
            ≡ handoff_exit (word_at remapped handoff_ptr_addr)
              ∷ out32 0xF8000004 0x767B
              ∷ out32 0xF8000910 configuration
              ∷ in32 0xF8000910
              ∷ out32 0xF8000008 0xDF0D
              ∷ [])
        × ((i : ℕ) → i < low_ocm_size → w.globals (ocm_high_addr + i) ≡ remapped (flash_data + i))
        × ((a : ℕ)
            → (a < ocm_high_addr) ⊎ (ocm_high_addr + low_ocm_size ≤ a)
            → w.globals a ≡ remapped a)
  unfolding main
  main_handoff h =
      let outside =
        λ (a : ℕ). copy_loop_outside 4 (low_ocm_size / 4) flash_data ocm_high_addr remapped a in
      let kept = λ (j : ℕ). outside (handoff_ptr_addr + j) (inr (omega (arith, size))) in
      let same : word_at (copy_loop 4 (low_ocm_size / 4) flash_data ocm_high_addr remapped)
            handoff_ptr_addr
          ≡ word_at remapped handoff_ptr_addr =
        omega
          (arith, outside handoff_ptr_addr (inr (omega (arith, size))), kept 1, kept 2, kept 3) in
      (
        refl,
        rw same refl,
        (λ i b.
            copy_loop_inside 4 (low_ocm_size / 4) flash_data ocm_high_addr remapped i
              (omega (arith, size, b)) (inr (omega (arith, size, h)))),
        λ a b. outside a (ground (arith, size, b)),
      )
