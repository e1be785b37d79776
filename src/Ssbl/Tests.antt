-- ===== src/Ssbl/Tests.antt =====
-- The second stage boot loader with its data at address 0xFC000000.
use software_prototypes.Base.{ℕ, ◌≡◌, ◌⊎◌, [], ◌∷◌, ◌==◌, ◌+◌, ◌<◌, ◌≤◌, if◌then◌else◌, arith}
use software_prototypes.Machine.{success, Env, stop}
use software_prototypes.Copy.{Memory}
use software_prototypes.Ssbl.{
  SsblCall, out32, in32, handoff_exit, ocm_high_addr, low_ocm_size, main,
}
use software_prototypes.Ssbl.Handoff.{booted, main_handoff}

abbrev env : Env SsblCall
env = record { status = λ _ _. success; value = λ _ _. 0x10; words = λ _ _. [] }

abbrev memory : Memory
memory a = if a == 0xFFFF0003 then 0xFC else 0

abbrev no_change : ℕ → Memory → Memory
no_change _ m = m

main_handoff_example :
    let (r, w) = main no_change env (booted memory) in
    (r ≡ stop)
    × (w.log
        ≡ handoff_exit 0
          ∷ out32 0xF8000004 0x767B
          ∷ out32 0xF8000910 0x1F
          ∷ in32 0xF8000910
          ∷ out32 0xF8000008 0xDF0D
          ∷ [])
    × ((i : ℕ) → i < low_ocm_size → w.globals (ocm_high_addr + i) ≡ memory (0xFC000000 + i))
    × ((a : ℕ) → (a < ocm_high_addr) ⊎ (ocm_high_addr + low_ocm_size ≤ a) → w.globals a ≡ memory a)
main_handoff_example = main_handoff no_change env memory (omega arith)
