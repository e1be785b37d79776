-- ===== src/Coherency/Demos.antt =====
-- The cache coherency demos with the R5's interrupt handler at work.
use software_prototypes.Base.{ℕ, suc, get_or, ◌≡◌, true, List, [], ◌∷◌}
use software_prototypes.Machine.{Env, ok}
use software_prototypes.Copy.{Memory}
use software_prototypes.Coherency.{Engine, BoardCall, is_busy}
use software_prototypes.Coherency.Rpu.{ipi_intr_handler}
use software_prototypes.Coherency.RpuCopies.{messages, any_source, ipi_intr_handler-Copied}
use software_prototypes.Coherency.Settings.{versal_coherent}
use software_prototypes.Coherency.Prints.{Copies, readbacks}
use software_prototypes.Coherency.Readback.{versal_main-Prints}
use software_prototypes.Coherency.Zynqmp
use software_prototypes.Coherency.Versal

-- The R5's handler with the three words of a message, on the memory.
abbrev pub r5 :
    (src_mask : ℕ) (targets : List ℕ) → List BoardCall → (message : List ℕ) → Memory → Memory
r5 src_mask targets l message m =
    let received =
      messages (get_or message 0 0) (get_or message 1 0) (get_or message 2 0) src_mask in
    (ipi_intr_handler targets received (record { log = []; globals = m })).1.globals

r5-Copies :
    (src_mask : ℕ) (targets : List ℕ)
    → any_source src_mask targets ≡ true
    → (l : List BoardCall)
    → Copies (λ src dest bytes. r5 src_mask targets l (src ∷ dest ∷ bytes ∷ []))
unfolding Copies
r5-Copies src_mask targets h l src dest bytes m apart =
    (ipi_intr_handler-Copied src dest bytes src_mask apart targets m h).1

module _ (device : List BoardCall → Engine → (src dest bytes : ℕ) → Memory → Memory)
    (e : Env BoardCall)
    (idle : (l : List BoardCall) (engine : Engine) → e.value l (is_busy engine) ≡ 0) (src_mask : ℕ)
    (targets : List ℕ) (source : any_source src_mask targets ≡ true) where
  -- Where the DMA engines copy, of a buffer that lies apart from its destination, what a transfer asks
  -- for, once the settings of `versal_coherent` are made, and are idle when asked, and the R5's interrupt
  -- status has the bit of a target: from any memory, main_a72.c returns, and the bytes that it reads back
  -- are the patterns of its six tests, in their order (newest first here), the last of which the
  -- R5's handler has copied for the message that it was sent.
  pub versal_readbacks :
      ((l : List BoardCall)
        → versal_coherent l ≡ true
        → (engine : Engine) → Copies (device l engine))
      → (fuel : ℕ) (m : Memory)
      → let (r, w) =
          Versal.main device
            (r5 src_mask targets)
            (suc fuel)
            e
            (record { log = []; globals = m }) in
        (r ≡ ok tt) × (readbacks w.log ≡ 0x5A ∷ 0xA5 ∷ 0x39 ∷ 0x38 ∷ 0x37 ∷ 0x36 ∷ [])
  unfolding readbacks
  versal_readbacks copies fuel m =
      let p =
        versal_main-Prints device (r5 src_mask targets) e idle copies
          (λ l _. r5-Copies src_mask targets source l) fuel in
      let (r, b, _) = p.run (record { log = []; globals = m }) tt in (r, b)
