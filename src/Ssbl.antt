-- ===== src/Ssbl.antt =====
-- The second stage boot loader zynq-7000-tips-tricks/ssbl/ssbl_main.c, which copies an application's data
-- from flash into on-chip memory and hands over to the application. What the remapping of the on-chip
-- memory does to the addresses is a parameter.
pub mod Handoff
mod Tests
use Prim.Native.Nat.{bit_or}
use software_prototypes.Base.{ℕ, ◌+◌, ◌*◌, ◌/◌}
use software_prototypes.Machine.{Act, stopped, ask, tell, gets, modify, ◌>>=◌, ◌>>◌}
use software_prototypes.Copy.{Memory, copy_loop}

pub data SsblCall : Type 0 where
  out32 : (address value : ℕ) → SsblCall
  in32 : (address : ℕ) → SsblCall
  -- `SsblHandoffExit`, which does not return
  handoff_exit : (address : ℕ) → SsblCall

abbrev pub Ssbl : Type 0 → Type 0
Ssbl A = Act SsblCall Memory A

abbrev pub ocm_high_addr : ℕ
ocm_high_addr = 0xFFFC0000

abbrev pub flash_data_ptr_addr : ℕ
flash_data_ptr_addr = 0xFFFF0000

abbrev pub handoff_ptr_addr : ℕ
handoff_ptr_addr = 0xFFFF0004

abbrev pub low_ocm_size : ℕ
low_ocm_size = 192 * 1024

-- The `u32` at an address.
abbrev pub word_at : Memory → ℕ → ℕ
word_at m a = m a + 0x100 * m (a + 1) + 0x10000 * m (a + 2) + 0x1000000 * m (a + 3)

-- With what a write of this configuration makes of the memory.
module _ (remap : ℕ → Memory → Memory) where
  unfoldable pub main : Ssbl (Unit {0})
  main = do
    tell (out32 0xF8000008 0xDF0D)
    ocm_cfg ← ask (in32 0xF8000910)
    tell (out32 0xF8000910 (bit_or ocm_cfg 0xF))
    modify (remap (bit_or ocm_cfg 0xF))
    tell (out32 0xF8000004 0x767B)
    src ← gets (λ m. word_at m flash_data_ptr_addr)
    modify (copy_loop 4 (low_ocm_size / 4) src ocm_high_addr)
    address ← gets (λ m. word_at m handoff_ptr_addr)
    tell (handoff_exit address)
    stopped
