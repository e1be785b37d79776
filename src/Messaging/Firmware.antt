-- ===== src/Messaging/Firmware.antt =====
-- The firmware's module zynqmp-ipi-messaging/Software/xpfw_mod_custom.c: `IpiHandler` and
-- `XPfw_SendIpi`. The XPfw functions are answered by the environment.
pub mod Rounds
pub mod Ready
use software_prototypes.Base.{
  ℕ, suc, Bool, true, false, List, [], ◌∷◌, ◌==◌, ◌&&◌, not, ◌%◌, ◌*◌, ◌^◌, if◌then◌else◌, get_or,
}
use software_prototypes.Word.{add32}
use software_prototypes.Machine.{
  Status, success, failure, Env, World, Act, pure, call, fetch, tell, gets, modify, ◌>>=◌, ◌>>◌,
}

-- struct ipi_ch, without its name; `init` is 0 or 1.
pub record Channel : Type 0 where
  pub mask : ℕ
  pub init : Bool

-- The module's static variables.
pub record Firmware : Type 0 where
  pub cnt : ℕ
  pub channels : List Channel

-- The masks of the table `channel`; those of the RPUs are of a header outside of the repository.
abbrev pub masks : (rpu0 rpu1 : ℕ) → List ℕ
masks rpu0 rpu1 = rpu0 ∷ rpu1 ∷ 2 ^ 24 ∷ 2 ^ 25 ∷ 2 ^ 27 ∷ []

abbrev pub xpfw_ipi_id : ℕ
xpfw_ipi_id = 0x1E

pub data FirmwareCall : Type 0 where
  ipi_write_message : (mask word : ℕ) → FirmwareCall
  ipi_trigger ipi_poll_for_ack ipi_read_response : (mask : ℕ) → FirmwareCall
  -- the report of a message that was received
  received : (mask word : ℕ) → FirmwareCall

abbrev pub Pmu : Type 0 → Type 0
Pmu A = Act FirmwareCall Firmware A

unfoldable pub fresh_channels : List ℕ → List Channel
fresh_channels [] = []
fresh_channels (m ∷ ms) = record { mask = m; init = false } ∷ fresh_channels ms

-- The loop of `IpiHandler`.
unfoldable pub mark : (src_mask : ℕ) → List Channel → List Channel
mark src_mask [] = []
mark src_mask (c ∷ cs) =
    (if c.mask == src_mask && not c.init then record c { init = true } else c) ∷ mark src_mask cs

unfoldable pub ipi_handler : (src_mask : ℕ) → Pmu (Unit {0})
unfolding mark
ipi_handler src_mask = modify λ f. record f { channels = mark src_mask f.channels }

-- The first loop of `XPfw_SendIpi`.
unfoldable pub all_init : List Channel → Bool
all_init [] = true
all_init (c ∷ cs) = c.init && all_init cs

-- One turn of the second loop: whether the loop goes on.
unfoldable pub exchange : (cnt mask : ℕ) → Pmu Bool
exchange cnt mask = do
  s ← call (ipi_write_message mask cnt)
  elim s [
    | failure ↦ pure false
    | success ↦ do
      s ← call (ipi_trigger mask)
      elim s [
        | failure ↦ pure false
        | success ↦ do
          s ← call (ipi_poll_for_ack mask)
          elim s [
            | failure ↦ pure false
            | success ↦ do
              (s, words) ← fetch (ipi_read_response mask)
              elim s [
                | failure ↦ pure false
                | success ↦
                    if get_or words 0 0 % 2 ^ 16 == cnt
                    then (do tell (received mask cnt); pure true)
                    else pure false
              ]
          ]
      ]
  ]

unfoldable pub send_loop : (cnt : ℕ) → List Channel → Pmu (Unit {0})
send_loop cnt [] = pure tt
send_loop cnt (c ∷ cs) = do
  let rest = send_loop cnt cs
  more ← exchange cnt c.mask
  elim more [ true ↦ rest | false ↦ pure tt ]

unfoldable pub xpfw_send_ipi : Pmu (Unit {0})
xpfw_send_ipi = do
  f ← gets (λ f. f)
  if all_init f.channels
      then (do send_loop f.cnt f.channels; modify λ f. record f { cnt = add32 f.cnt 1 })
      else pure tt

-- What the firmware's core runs: the handler for a message, or the scheduled task.
pub data Event : Type 0 where
  ipi : (src_mask : ℕ) → Event
  tick : Event

unfoldable pub handle : Event → Pmu (Unit {0})
handle (ipi src_mask) = ipi_handler src_mask
handle tick = xpfw_send_ipi

unfoldable pub run : List Event → Pmu (Unit {0})
run [] = pure tt
run (v ∷ vs) = do let rest = run vs; handle v; rest

-- The world after `ModCustomInit`.
abbrev pub booted : List ℕ → World FirmwareCall Firmware
booted ms = record { log = []; globals = record { cnt = 0; channels = fresh_channels ms } }
