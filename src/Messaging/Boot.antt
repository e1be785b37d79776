-- ===== src/Messaging/Boot.antt =====
-- The start of the five processors of zynqmp-ipi-messaging/Software, `main` of main_mb0.c, main_mb1.c,
-- main_r5_0.c and main_r5_1.c and the part of `main` of testapp.c that sets the interrupt up, side by
-- side with the firmware. Each `main` is a fixed sequence of calls, of which no result is read, and then
-- waits. The firmware's core, which passes messages on to `IpiHandler`, is a parameter.
pub mod Order
pub mod Turns
pub mod Starts
pub mod Apu
mod Tests
use software_prototypes.Base.{
  ℕ, suc, zero, Bool, true, false, not, List, [], ◌∷◌, Option, none, some, ◌==◌, ◌&&◌, ◌||◌, ◌*◌,
  ◌^◌, if◌then◌else◌,
}
use software_prototypes.Machine.{Env, World}
use software_prototypes.Metal.{MetalCall, ipi_buf, irq_register, irq_enable, write32}
use software_prototypes.Metal
use software_prototypes.Messaging.App.{
  remote_ipi_mask, ipi_pmu_mask, ipi_ier_offset, ipi_ch10topmu_req_offset, ipi_trig_offset,
}
use software_prototypes.Messaging.Firmware.{
  Firmware, FirmwareCall, xpfw_ipi_id, Event, ipi, handle, masks, booted,
}

pub data Handler : Type 0 where
  interrupt_handler ipi_intr_handler mailbox_handler mailbox_error_handler : Handler

pub data BootCall : Type 0 where
  usleep : (usecs : ℕ) → BootCall
  -- the exception table
  register_exception_handler exception_init exception_enable : BootCall
  -- the interrupt controller of a MicroBlaze, and the registers and buffers by their address
  xintc_initialize xintc_start xintc_enable : BootCall
  xintc_connect : Handler → BootCall
  out32 : (address word : ℕ) → BootCall
  -- the interrupt controller of an R5, and its IPI driver
  gic_lookup_config gic_cfg_initialize gic_enable : BootCall
  gic_connect : Handler → BootCall
  ipi_lookup_config ipi_cfg_initialize : BootCall
  ipi_interrupt_enable ipi_clear_interrupt_status ipi_trigger : (mask : ℕ) → BootCall
  ipi_write_message : (mask word : ℕ) → BootCall
  -- the mailbox of an R5
  mailbox_initialize : BootCall
  mailbox_set_callback : Handler → BootCall
  mailbox_send_data : (mask word : ℕ) → BootCall
  -- libmetal
  metal : MetalCall → BootCall

abbrev pub xipipsu_all_mask : ℕ
xipipsu_all_mask = 0x0F0F0301

-- The word that a processor announces itself with.
abbrev pub id_word : ℕ
id_word = xpfw_ipi_id * 2 ^ 16

-- The buffer of a MicroBlaze's requests and its trigger and interrupt enable registers.
pub record Registers : Type 0 where
  pub request : ℕ
  pub trigger : ℕ
  pub enable : ℕ

abbrev pub mb0_registers : Registers
mb0_registers = record { request = 0xFF9907C0; trigger = 0xFF340000; enable = 0xFF340018 }

abbrev pub mb1_registers : Registers
mb1_registers = record { request = 0xFF9909C0; trigger = 0xFF350000; enable = 0xFF350018 }

-- main_mb0.c
unfoldable pub mb0_main : List BootCall
mb0_main =
    xintc_initialize
    ∷ xintc_connect interrupt_handler
    ∷ xintc_start
    ∷ xintc_enable
    ∷ out32 mb0_registers.enable xipipsu_all_mask
    ∷ register_exception_handler
    ∷ exception_init
    ∷ exception_enable
    ∷ out32 mb0_registers.request id_word
    ∷ out32 mb0_registers.trigger ipi_pmu_mask
    ∷ []

-- main_mb1.c
unfoldable pub mb1_main : List BootCall
mb1_main =
    xintc_initialize
    ∷ xintc_connect interrupt_handler
    ∷ xintc_start
    ∷ xintc_enable
    ∷ out32 mb1_registers.enable xipipsu_all_mask
    ∷ register_exception_handler
    ∷ exception_init
    ∷ exception_enable
    ∷ out32 mb1_registers.request id_word
    ∷ out32 mb1_registers.trigger ipi_pmu_mask
    ∷ []

-- main_r5_0.c
unfoldable pub r5_0_main : List BootCall
r5_0_main =
    usleep 100
    ∷ ipi_lookup_config
    ∷ ipi_cfg_initialize
    ∷ gic_lookup_config
    ∷ gic_cfg_initialize
    ∷ register_exception_handler
    ∷ gic_connect ipi_intr_handler
    ∷ gic_enable
    ∷ ipi_interrupt_enable xipipsu_all_mask
    ∷ ipi_clear_interrupt_status xipipsu_all_mask
    ∷ exception_enable
    ∷ ipi_write_message ipi_pmu_mask id_word
    ∷ ipi_trigger ipi_pmu_mask
    ∷ []

-- main_r5_1.c
unfoldable pub r5_1_main : List BootCall
r5_1_main =
    usleep 100
    ∷ gic_lookup_config
    ∷ gic_cfg_initialize
    ∷ register_exception_handler
    ∷ exception_enable
    ∷ mailbox_initialize
    ∷ mailbox_set_callback mailbox_handler
    ∷ mailbox_set_callback mailbox_error_handler
    ∷ mailbox_send_data ipi_pmu_mask id_word
    ∷ []

-- testapp.c, behind the mapping of the regions
unfoldable pub apu_main : List BootCall
apu_main =
    metal irq_register
    ∷ metal irq_enable
    ∷ metal (write32 Metal.ipi ipi_ier_offset remote_ipi_mask)
    ∷ metal (write32 ipi_buf ipi_ch10topmu_req_offset id_word)
    ∷ metal (write32 Metal.ipi ipi_trig_offset ipi_pmu_mask)
    ∷ []

-- Whether a call interrupts the firmware's processor.
unfoldable pub triggers : BootCall → Bool
triggers (out32 address word) =
    (address == mb0_registers.trigger || address == mb1_registers.trigger) && word == ipi_pmu_mask
triggers (ipi_trigger mask) = mask == ipi_pmu_mask
triggers (mailbox_send_data mask word) = mask == ipi_pmu_mask
triggers (metal (write32 Metal.ipi offset word)) = offset == ipi_trig_offset && word == ipi_pmu_mask
triggers c = false

-- The word in the buffer of a processor's requests to the firmware, behind these calls, newest first.
unfoldable pub request_word : List BootCall → ℕ
request_word [] = 0
request_word (out32 address word ∷ l) =
    if address == mb0_registers.request || address == mb1_registers.request
    then word
    else request_word l
request_word (ipi_write_message mask word ∷ l) =
    if mask == ipi_pmu_mask then word else request_word l
request_word (mailbox_send_data mask word ∷ l) =
    if mask == ipi_pmu_mask then word else request_word l
request_word (metal (write32 ipi_buf offset word) ∷ l) =
    if offset == ipi_ch10topmu_req_offset then word else request_word l
request_word (c ∷ l) = request_word l

-- A processor: the mask that the firmware knows it by, the calls of its `main` that are left, and those
-- that it made, newest first.
pub record Processor : Type 0 where
  pub mask : ℕ
  pub left : List BootCall
  pub made : List BootCall

pub record Site : Type 0 where
  pub processors : List Processor
  pub firmware : World FirmwareCall Firmware

unfoldable pub go_on : List BootCall → Processor → Processor
go_on [] p = record p { left = [] }
go_on (c ∷ l) p = record p { left = l; made = c ∷ p.made }

-- The processor at an index makes its next call.
unfoldable pub advance : (index : ℕ) → List Processor → List Processor
unfolding go_on
advance i [] = []
advance zero (p ∷ ps) = go_on p.left p ∷ ps
advance (suc i) (p ∷ ps) = p ∷ advance i ps

-- What the firmware's core runs, or the next call of the processor at an index.
pub data Move : Type 0 where
  tick : Move
  boot : (index : ℕ) → Move

-- The firmware behind a call of a processor.
unfoldable pub deliver :
    Env FirmwareCall → Option ℕ → World FirmwareCall Firmware → World FirmwareCall Firmware
deliver e none w = w
deliver e (some mask) w = (handle (ipi mask) e w).1

-- `core` says of which first words the core passes a message on to the module.
module _ (core : ℕ → Bool) where
  unfoldable pub call_reaches : List BootCall → Processor → Bool
  call_reaches [] p = false
  call_reaches (c ∷ l) p = triggers c && core (request_word (c ∷ p.made))

  -- The mask of the processor at an index, if its next call reaches `IpiHandler`.
  unfoldable pub reaches : (index : ℕ) → List Processor → Option ℕ
  reaches i [] = none
  reaches zero (p ∷ ps) = if call_reaches p.left p then some p.mask else none
  reaches (suc i) (p ∷ ps) = reaches i ps

  module _ (e : Env FirmwareCall) where
    unfoldable pub move : Move → Site → Site
    move tick s = record s { firmware = (handle Event.tick e s.firmware).1 }
    move (boot i) s = record {
      processors = advance i s.processors;
      firmware = deliver e (reaches i s.processors) s.firmware;
    }

    unfoldable pub moves : List Move → Site → Site
    moves [] s = s
    moves (m ∷ ms) s = moves ms (move m s)

-- All processors before their first call, in the order of the table `channel`.
unfoldable pub powered_on : (rpu0 rpu1 : ℕ) → Site
powered_on rpu0 rpu1 = record {
  processors =
      record { mask = rpu0; left = r5_0_main; made = [] }
      ∷ record { mask = rpu1; left = r5_1_main; made = [] }
      ∷ record { mask = 2 ^ 24; left = mb0_main; made = [] }
      ∷ record { mask = 2 ^ 25; left = mb1_main; made = [] }
      ∷ record { mask = 2 ^ 27; left = apu_main; made = [] }
      ∷ [];
  firmware = booted (masks rpu0 rpu1);
}
