-- ===== src/Coherency/Rpu.antt =====
-- `IpiIntrHandler` of zynqmp-cache-coherency/Software/main_r5.c and versal-cache-coherency/Software/main_r5.c: it
-- copies the bytes that a message asks for. The data cache of the R5 is off.
use Prim.Native.Nat.{bit_and}
use software_prototypes.Base.{ℕ, List, [], ◌∷◌, ◌==◌, if◌then◌else◌, get_or}
use software_prototypes.Machine.{
  Status, success, failure, Act, pure, fetch, ask, tell, modify, ◌>>=◌, ◌>>◌,
}
use software_prototypes.Copy.{Memory, copy_loop}

pub data RpuCall : Type 0 where
  get_interrupt_status : RpuCall
  read_message clear_interrupt_status : (mask : ℕ) → RpuCall

-- TmpBufPtr
pub record Message : Type 0 where
  pub src : ℕ
  pub dst : ℕ
  pub bytes : ℕ

abbrev pub blank_message : Message
blank_message = record { src = 0; dst = 0; bytes = 0 }

-- The words that a read writes, where it succeeds.
abbrev pub read_into : Message → Status → List ℕ → Message
read_into b success ws = record {
  src = get_or ws 0 b.src;
  dst = get_or ws 1 b.dst;
  bytes = get_or ws 2 b.bytes;
}
read_into b failure ws = b

-- The loop over the masks of the driver's target list.
unfoldable pub serve : (src_mask : ℕ) → Message → List ℕ → Act RpuCall Memory (Unit {0})
serve src_mask b [] = pure tt
serve src_mask b (mask ∷ masks) =
    let skip = serve src_mask b masks in
    if bit_and src_mask mask == 0 then skip else (do
      (s, ws) ← fetch (read_message mask)
      modify (copy_loop 1 (read_into b s ws).bytes (read_into b s ws).src (read_into b s ws).dst)
      tell (clear_interrupt_status mask)
      serve src_mask (read_into b s ws) masks)

unfoldable pub ipi_intr_handler : (targets : List ℕ) → Act RpuCall Memory (Unit {0})
ipi_intr_handler targets = do
  src_mask ← ask get_interrupt_status
  serve src_mask blank_message targets
