-- ===== src/Messaging/System.antt =====
-- The firmware of zynqmp-ipi-messaging/Software together with the processors that answer it: a response
-- that the firmware reads is what the processor's handler makes of the word that was last written for it.
use software_prototypes.Base.{
  Option, none, some, ℕ, ◌≡◌, refl, ◌≤◌, true, List, [], ◌∷◌, ◌==◌, ◌^◌, if◌then◌else◌, arith,
}
use software_prototypes.Word.{add32}
use software_prototypes.Machine.{Status, success, failure, Env, World}
use software_prototypes.Messaging.Firmware.{
  Firmware, FirmwareCall, ipi_write_message, ipi_trigger, ipi_poll_for_ack, ipi_read_response,
  received, all_init, tick, handle,
}
use software_prototypes.Messaging.Firmware.Rounds.{
  IsEcho, last_written, cut_round, xpfw_send_ipi_rounds,
}
use software_prototypes.Messaging.Remote.{
  mb0_buffers, mb1_buffers, apu_buffers, mb0_interrupt_handler, mb1_interrupt_handler,
  ipi_irq_handler, ipi_intr_handler, mailbox_handler,
}
use software_prototypes.Messaging.Remote.Echo.{
  pmu_mask, answered, driver_answered, mailbox_answered, idle_bus, idle_driver, bus, driver,
  is_source, mb0_echo, mb1_echo, apu_echo, mailbox_echo, ipi_intr_echo,
}

-- The masks of the RPUs, and the targets of the first RPU's driver.
module _ (rpu0 rpu1 : ℕ) (targets : List ℕ) where
  -- What the processor of a mask has responded to a word when it acknowledges, if it does.
  unfoldable pub answer : (mask word : ℕ) → Option ℕ
  answer mask word =
      if mask == rpu0
      then driver_answered pmu_mask
          (ipi_intr_handler targets (driver pmu_mask word) (idle_driver (tt {0}))).1.log
      else if mask == rpu1
      then mailbox_answered pmu_mask
          (mailbox_handler pmu_mask (driver pmu_mask word) (idle_driver (tt {0}))).1.log
      else if mask == 2 ^ 24
      then answered mb0_buffers
          (mb0_interrupt_handler (bus mb0_buffers word) (idle_bus (tt {0}))).1.log
      else if mask == 2 ^ 25
      then answered mb1_buffers
          (mb1_interrupt_handler (bus mb1_buffers word) (idle_bus (tt {0}))).1.log
      else answered apu_buffers (ipi_irq_handler (bus apu_buffers word) (idle_bus (tt {0}))).1.log

  unfoldable pub response : List FirmwareCall → FirmwareCall → List ℕ
  response l (ipi_read_response mask) = elim (answer mask (last_written mask l)) [
    | none ↦ []
    | some word ↦ word ∷ []
  ]
  response l c = []

  -- A poll succeeds where the processor acknowledges; the firmware's own writes and reads do.
  unfoldable pub outcome : List FirmwareCall → FirmwareCall → Status
  outcome l (ipi_poll_for_ack mask) = elim (answer mask (last_written mask l)) [
    | none ↦ failure
    | some word ↦ success
  ]
  outcome l c = success

  abbrev pub processors : Env FirmwareCall
  processors = record { status = outcome; value = λ _ _. 0; words = response }

  module _ (source : is_source pmu_mask pmu_mask targets ≡ true) where
    answer-eq : (mask word : ℕ) → answer mask word ≡ some word
    unfolding answer
    answer-eq mask word = ground (
      arith,
      ipi_intr_echo (tt {0}) pmu_mask pmu_mask word targets source,
      mailbox_echo (tt {0}) pmu_mask word,
      mb0_echo (tt {0}) word,
      mb1_echo (tt {0}) word,
      apu_echo (tt {0}) word,
    )

    outcome-success : (l : List FirmwareCall) (c : FirmwareCall) → outcome l c ≡ success
    unfolding outcome
    outcome-success l (ipi_poll_for_ack mask) = ground (arith, answer-eq mask (last_written mask l))
    outcome-success l (ipi_write_message mask word) = refl
    outcome-success l (ipi_trigger mask) = refl
    outcome-success l (ipi_read_response mask) = refl
    outcome-success l (received mask word) = refl

    pub processors-IsEcho : IsEcho processors
    unfolding response
    processors-IsEcho = record {
      succeeds = outcome-success;
      echoes = λ l mask. ground (arith, answer-eq mask (last_written mask l));
    }

    -- Under the same conditions, from 2^16 on and with all channels initialised, a tick sends the counter to the first processor only
    -- and takes its response, which is right, for invalid.
    pub processors_give_up :
        (w : World FirmwareCall Firmware)
        → all_init w.globals.channels ≡ true
        → 2 ^ 16 ≤ w.globals.cnt
        → let w' = (handle tick processors w).1 in
          (w'.log ≡ cut_round w.globals.cnt w.globals.channels w.log)
          × (w'.globals.cnt ≡ add32 w.globals.cnt 1)
    unfolding handle
    processors_give_up w h b =
        ground (arith, b, xpfw_send_ipi_rounds processors processors-IsEcho w h)
