-- ===== src/Messaging/Remote.antt =====
-- The handlers of zynqmp-ipi-messaging/Software by which the other processors answer a message:
-- `InterruptHandler` of main_mb0.c and main_mb1.c, `ipi_irq_handler` of testapp.c, `IpiIntrHandler` of
-- main_r5_0.c and `MailboxHandler` of main_r5_1.c. A message is one word.
pub mod Echo
use Prim.Native.Nat.{bit_and}
use software_prototypes.Base.{
  ℕ, suc, zero, Bool, true, false, List, [], ◌∷◌, ◌==◌, ◌+◌, ◌*◌, not, if◌then◌else◌, get_or,
}
use software_prototypes.Word.{u32_max}
use software_prototypes.Machine.{
  Status, success, failure, Act, pure, call, fetch, ask, tell, when, ◌>>=◌, ◌>>◌,
}

-- Accesses of the message buffers and of the interrupt registers, by their address.
pub data Mmio : Type 0 where
  read32 : (address : ℕ) → Mmio
  write32 : (address word : ℕ) → Mmio

-- The buffers of the requests to a processor and of its responses, and its interrupt status register.
pub record Buffers : Type 0 where
  pub request : ℕ
  pub response : ℕ
  pub status : ℕ

abbrev pub mb0_buffers : Buffers
mb0_buffers = record { request = 0xFF990EC0; response = 0xFF990EE0; status = 0xFF340010 }

abbrev pub mb1_buffers : Buffers
mb1_buffers = record { request = 0xFF990F00; response = 0xFF990F20; status = 0xFF350010 }

-- The regions `ff990000.ipi_buf` and `ff370000.ipi`, and the offsets in them.
abbrev pub apu_buffers : Buffers
apu_buffers = record {
  request = 0xFF990000 + 0xF80;
  response = 0xFF990000 + 0xFA0;
  status = 0xFF370000 + 0x10;
}

module _ {G : Type 0} where
  -- main_mb0.c
  unfoldable pub mb0_interrupt_handler : Act Mmio G (Unit {0})
  mb0_interrupt_handler = do
    word ← ask (read32 mb0_buffers.request)
    tell (write32 mb0_buffers.response word)
    tell (write32 mb0_buffers.status u32_max)

  -- main_mb1.c
  unfoldable pub mb1_interrupt_handler : Act Mmio G (Unit {0})
  mb1_interrupt_handler = do
    word ← ask (read32 mb1_buffers.request)
    tell (write32 mb1_buffers.response word)
    tell (write32 mb1_buffers.status u32_max)

  -- testapp.c
  unfoldable pub ipi_irq_handler : Act Mmio G (Unit {0})
  ipi_irq_handler = do
    word ← ask (read32 apu_buffers.request)
    tell (write32 apu_buffers.response word)
    tell (write32 apu_buffers.status u32_max)

-- The calls of the IPI and the mailbox driver, for the processor of a mask.
pub data DriverCall : Type 0 where
  get_interrupt_status : DriverCall
  read_message : (mask : ℕ) → DriverCall
  write_response : (mask word : ℕ) → DriverCall
  clear_interrupt_status : (mask : ℕ) → DriverCall

module _ {G : Type 0} where
  -- The loop of `IpiIntrHandler`, with the word that the last message left in the buffer.
  unfoldable pub serve : (src_mask word : ℕ) → List ℕ → Act DriverCall G (Unit {0})
  serve src_mask word [] = pure tt
  serve src_mask word (m ∷ ms) =
      let skip = serve src_mask word ms in
      if bit_and src_mask m == 0 then skip else (do
        (s, words) ← fetch (read_message m)
        let word' : ℕ = elim s [ success ↦ get_or words 0 0 | failure ↦ word ]
        tell (write_response m word')
        tell (clear_interrupt_status m)
        serve src_mask word' ms)

  -- main_r5_0.c, with the masks of the driver's target list
  unfoldable pub ipi_intr_handler : (targets : List ℕ) → Act DriverCall G (Unit {0})
  ipi_intr_handler targets = do src_mask ← ask get_interrupt_status; serve src_mask 0 targets

  -- main_r5_1.c, with the mask of the platform management unit
  unfoldable pub mailbox_handler : (pmu : ℕ) → Act DriverCall G (Unit {0})
  mailbox_handler pmu = do
    (s, words) ← fetch (read_message pmu)
    elim s [
      | failure ↦ pure tt
      | success ↦ do t ← call (write_response pmu (get_or words 0 0)); pure tt
    ]
