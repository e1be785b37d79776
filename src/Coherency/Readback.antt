-- ===== src/Coherency/Readback.antt =====
-- What the cache coherency demos print: the byte that each test reads back.
use software_prototypes.Base.{ℕ, suc, Bool, true, ◌≡◌, inl, refl, ap, ◌∙◌, List, [], ◌∷◌, arith}
use software_prototypes.Machine.{Env, World, ok}
use software_prototypes.Copy.{Memory, put}
use software_prototypes.Coherency.{
  Engine, fpd, lpd, cci0, cci1, zdma, Board, BoardCall, is_busy, readback, flush_range, transfer,
  buffer_bytesize, src_buffer, dst_buffer, init_loop, write_loop, init_buffers, wait_idle, dma_test,
  rpu_test, write_message, trigger_ipi, poll_for_ack, transferred, served, last_message,
}
use software_prototypes.Coherency.Settings.{
  written, outer_cacheable, tlb_set, initialized, gpio_set, selected, zdma_cache, ipi_ready,
  zynqmp_coherent, versal_coherent, is_inert, Inert, zynqmp_coherent-Inert, versal_coherent-Inert,
}
use software_prototypes.Coherency.RpuCopies.{Apart}
use software_prototypes.Coherency.Zynqmp
use software_prototypes.Coherency.Versal
use software_prototypes.Coherency.Prints.{readbacks, Copies, Prints, bind-Prints}

-- The first byte of the source when a transfer starts.
first_byte :
    (byte : ℕ) (m : Memory)
    → write_loop buffer_bytesize 0 0xFF (init_loop buffer_bytesize 0 byte m) src_buffer ≡ byte
unfolding init_loop write_loop put
first_byte byte m = refl

abbrev Anything : List BoardCall → Type 0
Anything l = Unit

module _ (device : List BoardCall → Engine → (src dest bytes : ℕ) → Memory → Memory)
    (rpu : List BoardCall → (message : List ℕ) → Memory → Memory) (e : Env BoardCall)
    (idle : (l : List BoardCall) (engine : Engine) → e.value l (is_busy engine) ≡ 0)
    (coherent : List BoardCall → Bool) (inert : Inert coherent)
    (device_copies : (l : List BoardCall)
      → coherent l ≡ true
      → (engine : Engine) → Copies (device l engine))
    (rpu_copies : (l : List BoardCall)
      → coherent l ≡ true
      → Copies (λ src dest bytes. rpu l (src ∷ dest ∷ bytes ∷ []))) where
  abbrev Kept : List BoardCall → Type 0
  Kept l = coherent l ≡ true

  -- The first byte behind a copy of the buffer.
  copied_byte :
      (f : (src dest bytes : ℕ) → Memory → Memory) (byte : ℕ) (m : Memory)
      → Copies f
      → f src_buffer dst_buffer buffer_bytesize
          (write_loop buffer_bytesize 0 0xFF (init_loop buffer_bytesize 0 byte m))
          dst_buffer
        ≡ byte
  unfolding Copies Apart
  copied_byte f byte m c =
      let before = write_loop buffer_bytesize 0 0xFF (init_loop buffer_bytesize 0 byte m) in
      (c src_buffer dst_buffer buffer_bytesize before (inl (omega arith))).inside 0 (omega arith)
      ∙ first_byte byte m

  -- The log behind the initialisation of the buffers.
  abbrev flushed : List BoardCall → List BoardCall
  flushed l = flush_range dst_buffer buffer_bytesize ∷ flush_range src_buffer buffer_bytesize ∷ l

  flushed-Kept : (l : List BoardCall) → Kept l → Kept (flushed l)
  unfolding Inert is_inert
  flushed-Kept l h =
      inert (flush_range dst_buffer buffer_bytesize) (flush_range src_buffer buffer_bytesize ∷ l)
        refl
      ∙ inert (flush_range src_buffer buffer_bytesize) l refl
      ∙ h

  rpu-Kept :
      (byte : ℕ) (words : List ℕ) (l : List BoardCall)
      → Kept l
      → Kept (readback byte ∷ poll_for_ack ∷ trigger_ipi ∷ write_message words ∷ flushed l)
  unfolding Inert is_inert
  rpu-Kept byte words l h =
      let l1 = write_message words ∷ flushed l in
      inert (readback byte) (poll_for_ack ∷ trigger_ipi ∷ l1) refl
      ∙ inert poll_for_ack (trigger_ipi ∷ l1) refl
      ∙ inert trigger_ipi l1 refl
      ∙ inert (write_message words) (flushed l) refl
      ∙ flushed-Kept l h

  message-Kept :
      (words : List ℕ) (l : List BoardCall) → Kept l → Kept (write_message words ∷ flushed l)
  unfolding Inert is_inert
  message-Kept words l h = inert (write_message words) (flushed l) refl ∙ flushed-Kept l h

  dma-Kept :
      (byte : ℕ) (engine : Engine) (l : List BoardCall)
      → Kept l
      → Kept (
          readback byte
          ∷ is_busy engine
          ∷ transfer engine src_buffer dst_buffer buffer_bytesize
          ∷ flushed l)
  unfolding Inert is_inert
  dma-Kept byte engine l h =
      let l1 = transfer engine src_buffer dst_buffer buffer_bytesize ∷ flushed l in
      inert (readback byte) (is_busy engine ∷ l1) refl
      ∙ inert (is_busy engine) l1 refl
      ∙ inert (transfer engine src_buffer dst_buffer buffer_bytesize) (flushed l) refl
      ∙ flushed-Kept l h

  rpu-Prints : Prints e Kept Kept (rpu_test device rpu) (λ l. 0x5A ∷ l)
  unfolding rpu_test init_buffers readbacks served last_message
  rpu-Prints = record {
    run = λ w h.
        let words = src_buffer ∷ dst_buffer ∷ buffer_bytesize ∷ [] in
        let l = write_message words ∷ flushed w.log in
        let byte =
          copied_byte (λ src dest bytes. rpu l (src ∷ dest ∷ bytes ∷ [])) 0x5A w.globals
            (rpu_copies l (message-Kept words w.log h)) in
        (refl, ap (λ b. b ∷ readbacks w.log) byte, rpu-Kept _ words w.log h);
  }

  abbrev test : (fuel : ℕ) → Engine → ℕ → Board (Unit {0})
  test fuel engine byte = dma_test device rpu (suc fuel) engine byte

  transferred_lem :
      (engine : Engine) (l : List BoardCall) (m : Memory)
      → transferred device rpu engine
          (is_busy engine ∷ transfer engine src_buffer dst_buffer buffer_bytesize ∷ l)
          m
        ≡ device l engine src_buffer dst_buffer buffer_bytesize m
  unfolding transferred
  transferred_lem fpd l m = refl
  transferred_lem lpd l m = refl
  transferred_lem cci0 l m = refl
  transferred_lem cci1 l m = refl
  transferred_lem zdma l m = refl

  wait_idle_lem :
      (fuel : ℕ) (engine : Engine) (w : World BoardCall Memory)
      → wait_idle (suc fuel) engine e w ≡ (ok tt, record w { log = is_busy engine ∷ w.log })
  unfolding wait_idle
  wait_idle_lem fuel engine w = ground (arith, idle w.log engine)

  -- The memory when the transfer starts, and the one behind it.
  abbrev filled : (byte : ℕ) → Memory → Memory
  filled byte m = write_loop buffer_bytesize 0 0xFF (init_loop buffer_bytesize 0 byte m)

  abbrev moved : Engine → (byte : ℕ) → World BoardCall Memory → Memory
  moved engine byte w =
      device (flushed w.log) engine src_buffer dst_buffer buffer_bytesize (filled byte w.globals)

  dma_test_lem :
      (fuel : ℕ) (engine : Engine) (byte : ℕ) (w : World BoardCall Memory)
      → let m = moved engine byte w in
        dma_test device rpu (suc fuel) engine byte e w ≡ (
          ok tt,
          record {
            log =
                readback (m dst_buffer)
                ∷ is_busy engine
                ∷ transfer engine src_buffer dst_buffer buffer_bytesize
                ∷ flushed w.log;
            globals = m;
          },
        )
  unfolding dma_test init_buffers
  dma_test_lem fuel engine byte w =
      let asked : World BoardCall Memory = record {
        log = transfer engine src_buffer dst_buffer buffer_bytesize ∷ flushed w.log;
        globals = filled byte w.globals;
      } in
      ground (
        arith,
        wait_idle_lem fuel engine asked,
        transferred_lem engine (flushed w.log) (filled byte w.globals),
      )

  test-Prints :
      (fuel : ℕ) (engine : Engine) (byte : ℕ)
      → Prints e Kept Kept (test fuel engine byte) (λ l. byte ∷ l)
  unfolding readbacks
  test-Prints fuel engine byte = record {
    run = λ w h.
        let l = flushed w.log in
        let copied = device_copies l (flushed-Kept w.log h) engine in
        let b = copied_byte (device l engine) byte w.globals copied in
        rw (dma_test_lem fuel engine byte w)
          (refl, ap (λ b. b ∷ readbacks w.log) b, dma-Kept _ engine w.log h);
  }

module _ (device : List BoardCall → Engine → (src dest bytes : ℕ) → Memory → Memory)
    (rpu : List BoardCall → (message : List ℕ) → Memory → Memory) (e : Env BoardCall)
    (idle : (l : List BoardCall) (engine : Engine) → e.value l (is_busy engine) ≡ 0) where
  abbrev DevicesCopy : (List BoardCall → Bool) → Type 0
  DevicesCopy coherent =
      (l : List BoardCall) → coherent l ≡ true → (engine : Engine) → Copies (device l engine)

  abbrev RpuCopies : (List BoardCall → Bool) → Type 0
  RpuCopies coherent =
      (l : List BoardCall)
      → coherent l ≡ true
      → Copies (λ src dest bytes. rpu l (src ∷ dest ∷ bytes ∷ []))

  zynqmp_configure : Prints e Anything (λ l. zynqmp_coherent l ≡ true) Zynqmp.configure (λ l. l)
  unfolding Zynqmp.configure readbacks zynqmp_coherent written outer_cacheable tlb_set initialized
      gpio_set selected zdma_cache ipi_ready
  zynqmp_configure = record { run = λ w _. (refl, refl, refl) }

  versal_configure : Prints e Anything (λ l. versal_coherent l ≡ true) Versal.configure (λ l. l)
  unfolding Versal.configure readbacks versal_coherent written outer_cacheable tlb_set initialized
      gpio_set selected zdma_cache ipi_ready
  versal_configure = record { run = λ w _. (refl, refl, refl) }

  pub zynqmp_main-Prints :
      DevicesCopy zynqmp_coherent
      → RpuCopies zynqmp_coherent
      → (fuel : ℕ)
      → Prints e Anything
          (λ l. zynqmp_coherent l ≡ true)
          (Zynqmp.main device rpu (suc fuel))
          (λ l. 0x5A ∷ 0xA5 ∷ 0x37 ∷ 0x36 ∷ l)
  unfolding Zynqmp.main
  zynqmp_main-Prints d r fuel =
      let t = test-Prints device rpu e idle zynqmp_coherent zynqmp_coherent-Inert d r fuel in
      let last = rpu-Prints device rpu e idle zynqmp_coherent zynqmp_coherent-Inert d r in
      bind-Prints zynqmp_configure
        (bind-Prints (t fpd 0x36) (bind-Prints (t lpd 0x37) (bind-Prints (t zdma 0xA5) last)))

  pub versal_main-Prints :
      DevicesCopy versal_coherent
      → RpuCopies versal_coherent
      → (fuel : ℕ)
      → Prints e Anything
          (λ l. versal_coherent l ≡ true)
          (Versal.main device rpu (suc fuel))
          (λ l. 0x5A ∷ 0xA5 ∷ 0x39 ∷ 0x38 ∷ 0x37 ∷ 0x36 ∷ l)
  unfolding Versal.main
  versal_main-Prints d r fuel =
      let t = test-Prints device rpu e idle versal_coherent versal_coherent-Inert d r fuel in
      let last = rpu-Prints device rpu e idle versal_coherent versal_coherent-Inert d r in
      bind-Prints versal_configure (
        bind-Prints (t fpd 0x36) (
          bind-Prints (t lpd 0x37) (
            bind-Prints (t cci0 0x38)
              (bind-Prints (t cci1 0x39) (bind-Prints (t zdma 0xA5) last)))))
