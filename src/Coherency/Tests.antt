-- ===== src/Coherency/Tests.antt =====
-- The cache coherency demos with engines that copy byte by byte and an R5 with two targets.
use software_prototypes.Base.{ℕ, ◌≡◌, refl, Bool, true, if◌then◌else◌, List, [], ◌∷◌, inl, arith}
use software_prototypes.Machine.{success, Env, ok}
use software_prototypes.Copy.{Memory, copy_loop}
use software_prototypes.Coherency.{Engine, BoardCall}
use software_prototypes.Coherency.Rpu.{ipi_intr_handler}
use software_prototypes.Coherency.RpuCopies.{
  Apart, Copied, messages, any_source, copy_loop-Copied, ipi_intr_handler-Copied,
}
use software_prototypes.Coherency.Settings.{versal_coherent}
use software_prototypes.Coherency.Prints.{Copies, readbacks}
use software_prototypes.Coherency.Demos.{r5, versal_readbacks}
use software_prototypes.Coherency.Zynqmp
use software_prototypes.Coherency.Versal

abbrev env : Env BoardCall
env = record { status = λ _ _. success; value = λ _ _. 0; words = λ _ _. [] }

-- Engines that copy where the settings of a board are made, and else leave the memory.
abbrev engine_copy :
    (List BoardCall → Bool) → List BoardCall → Engine → (src dest bytes : ℕ) → Memory → Memory
engine_copy coherent l engine src dest bytes m =
    if coherent l then copy_loop 1 bytes src dest m else m

engine-Copies :
    (coherent : List BoardCall → Bool) (l : List BoardCall)
    → coherent l ≡ true
    → (engine : Engine) → Copies (engine_copy coherent l engine)
unfolding Copies
engine-Copies coherent l h engine src dest bytes m apart =
    rw h (copy_loop-Copied src dest bytes apart m)

abbrev targets : List ℕ
targets = 0x1 ∷ 0x100 ∷ []

targets-any_source : any_source 0x100 targets ≡ true
unfolding any_source
targets-any_source = refl

abbrev memory : Memory
memory address = 7

versal_readbacks_example :
    let (r, w) =
      Versal.main
        (engine_copy versal_coherent)
        (r5 0x100 targets)
        1
        env
        (record { log = []; globals = memory }) in
    (r ≡ ok tt) × (readbacks w.log ≡ 0x5A ∷ 0xA5 ∷ 0x39 ∷ 0x38 ∷ 0x37 ∷ 0x36 ∷ [])
versal_readbacks_example =
    versal_readbacks (engine_copy versal_coherent) env (λ _ _. refl) 0x100 targets
      targets-any_source (engine-Copies versal_coherent) 0 memory

separate : Apart 0x40000 0x60000 64
unfolding Apart
separate = inl (omega arith)

ipi_intr_handler-Copied_example :
    let (r, w) =
      ipi_intr_handler targets
        (messages 0x40000 0x60000 64 0x100)
        (record { log = []; globals = memory }) in
    (r ≡ ok tt) × Copied 0x40000 0x60000 64 memory w.globals
ipi_intr_handler-Copied_example =
    ipi_intr_handler-Copied 0x40000 0x60000 64 0x100 separate targets memory targets-any_source
