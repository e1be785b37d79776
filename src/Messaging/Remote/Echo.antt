-- ===== src/Messaging/Remote/Echo.antt =====
-- What the handlers of the other processors send back: the word that they were sent.
use Prim.Native.Nat.{bit_and}
use software_prototypes.Base.{
  ℕ, ◌≡◌, refl, Bool, true, false, not, List, [], ◌∷◌, Option, none, some, ◌&&◌, ◌==◌,
  if◌then◌else◌, arith,
}
use software_prototypes.Machine.{success, Env, World}
use software_prototypes.Messaging.Remote.{
  Buffers, Mmio, read32, write32, mb0_buffers, mb1_buffers, apu_buffers, mb0_interrupt_handler,
  mb1_interrupt_handler, ipi_irq_handler, DriverCall, get_interrupt_status, read_message,
  write_response, clear_interrupt_status, serve, ipi_intr_handler, mailbox_handler,
}

-- The word last written at an address, and the last response to a processor; 0 if there is none.
unfoldable pub word_at : (address : ℕ) → List Mmio → ℕ
word_at address [] = 0
word_at address (read32 a ∷ l) = word_at address l
word_at address (write32 a word ∷ l) = if a == address then word else word_at address l

unfoldable pub response_to : (mask : ℕ) → List DriverCall → ℕ
response_to mask [] = 0
response_to mask (get_interrupt_status ∷ l) = response_to mask l
response_to mask (read_message m ∷ l) = response_to mask l
response_to mask (write_response m word ∷ l) = if m == mask then word else response_to mask l
response_to mask (clear_interrupt_status m ∷ l) = response_to mask l

-- XPAR_XIPIPS_TARGET_PSU_PMU_0_CH0_MASK, as main_mb0.c defines it
abbrev pub pmu_mask : ℕ
pmu_mask = 0x10000

-- The response to the firmware when its interrupt was cleared, by which it is acknowledged, if it was: by
-- the register, and by the driver. The mailbox acknowledges by itself what it has sent a response to.
unfoldable pub answered : Buffers → List Mmio → Option ℕ
unfolding word_at
answered b [] = none
answered b (read32 a ∷ l) = answered b l
answered b (write32 a word ∷ l) =
    if a == b.status && not (bit_and word pmu_mask == 0)
    then some (word_at b.response l)
    else answered b l

unfoldable pub driver_answered : (pmu : ℕ) → List DriverCall → Option ℕ
unfolding response_to
driver_answered pmu [] = none
driver_answered pmu (clear_interrupt_status m ∷ l) =
    if m == pmu then some (response_to pmu l) else driver_answered pmu l
driver_answered pmu (c ∷ l) = driver_answered pmu l

unfoldable pub mailbox_answered : (pmu : ℕ) → List DriverCall → Option ℕ
mailbox_answered pmu [] = none
mailbox_answered pmu (write_response m word ∷ l) =
    if m == pmu then some word else mailbox_answered pmu l
mailbox_answered pmu (c ∷ l) = mailbox_answered pmu l

-- A bus with this word in the buffer of the requests, and a driver that delivers it; every driver call
-- succeeds.
abbrev pub bus : Buffers → (word : ℕ) → Env Mmio
bus b word = record {
  status = λ _ _. success;
  value = λ _ c. elim c [ read32 a ↦ if a == b.request then word else 0 | write32 a v ↦ 0 ];
  words = λ _ _. [];
}

abbrev pub driver : (src_mask word : ℕ) → Env DriverCall
driver src_mask word = record {
  status = λ _ _. success;
  value = λ _ _. src_mask;
  words = λ _ _. word ∷ [];
}

-- The processor is a target of which the status has a bit.
unfoldable pub is_source : (src_mask pmu : ℕ) → List ℕ → Bool
is_source src_mask pmu [] = false
is_source src_mask pmu (m ∷ ms) =
    if m == pmu then not (bit_and src_mask m == 0) else is_source src_mask pmu ms

module _ {G : Type 0} (g : G) where
  abbrev pub idle_bus : World Mmio G
  idle_bus = record { log = []; globals = g }

  abbrev pub idle_driver : World DriverCall G
  idle_driver = record { log = []; globals = g }

  pub mb0_echo :
      (word : ℕ)
      → answered mb0_buffers (mb0_interrupt_handler (bus mb0_buffers word) idle_bus).1.log
        ≡ some word
  unfolding mb0_interrupt_handler answered word_at
  mb0_echo word = refl

  pub mb1_echo :
      (word : ℕ)
      → answered mb1_buffers (mb1_interrupt_handler (bus mb1_buffers word) idle_bus).1.log
        ≡ some word
  unfolding mb1_interrupt_handler answered word_at
  mb1_echo word = refl

  pub apu_echo :
      (word : ℕ)
      → answered apu_buffers (ipi_irq_handler (bus apu_buffers word) idle_bus).1.log ≡ some word
  unfolding ipi_irq_handler answered word_at
  apu_echo word = refl

  pub mailbox_echo :
      (pmu word : ℕ)
      → mailbox_answered pmu (mailbox_handler pmu (driver pmu word) idle_driver).1.log ≡ some word
  unfolding mailbox_handler mailbox_answered
  mailbox_echo pmu word = ground arith

  serve_kept :
      (src_mask pmu word last : ℕ) (targets : List ℕ) (w : World DriverCall G)
      → driver_answered pmu w.log ≡ some word
      → driver_answered pmu (serve src_mask last targets (driver src_mask word) w).1.log ≡ some word
  unfolding serve driver_answered response_to
  serve_kept src_mask pmu word last [] w h = h
  serve_kept src_mask pmu word last (m ∷ ms) w h =
      let log = clear_interrupt_status m ∷ write_response m word ∷ read_message m ∷ w.log in
      ground (
        arith,
        serve_kept src_mask pmu word last ms w h,
        serve_kept src_mask pmu word word ms (record w { log = log }),
      )

  serve_echo :
      (src_mask pmu word last : ℕ) (targets : List ℕ) (w : World DriverCall G)
      → is_source src_mask pmu targets ≡ true
      → driver_answered pmu (serve src_mask last targets (driver src_mask word) w).1.log ≡ some word
  unfolding serve driver_answered response_to is_source
  serve_echo src_mask pmu word last [] w h = cc
  serve_echo src_mask pmu word last (m ∷ ms) w h =
      let log = clear_interrupt_status m ∷ write_response m word ∷ read_message m ∷ w.log in
      ground (
        arith,
        h,
        serve_echo src_mask pmu word last ms w,
        serve_kept src_mask pmu word word ms (record w { log = log }),
        serve_echo src_mask pmu word word ms (record w { log = log }),
      )

  pub ipi_intr_echo :
      (src_mask pmu word : ℕ) (targets : List ℕ)
      → is_source src_mask pmu targets ≡ true
      → driver_answered pmu (ipi_intr_handler targets (driver src_mask word) idle_driver).1.log
        ≡ some word
  unfolding ipi_intr_handler
  ipi_intr_echo src_mask pmu word targets h =
      serve_echo src_mask pmu word 0 targets
        (record { log = get_interrupt_status ∷ []; globals = g }) h
