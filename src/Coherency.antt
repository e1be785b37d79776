-- ===== src/Coherency.antt =====
-- The cache coherency demos zynqmp-cache-coherency/Software (main_a53.c and main_r5.c) and
-- versal-cache-coherency/Software (main_a72.c and main_r5.c). What main_a53.c and main_a72.c share stands
-- here, Coherency/Zynqmp and Coherency/Versal have the rest of each, and Coherency/Rpu the handler of
-- the R5, which is the same in both, with Coherency/RpuStart for its `main`. The memory is the one that
-- a coherent interconnect shows to all; what a DMA engine and the R5 make of it, for a transfer or a message
-- and behind the calls so far, are parameters. Coherency/Settings has the settings that such calls leave.
pub mod Settings
pub mod Prints
pub mod Rpu
pub mod RpuCopies
pub mod RpuStart
pub mod Zynqmp
pub mod Versal
pub mod Readback
pub mod Demos
mod Tests
use software_prototypes.Base.{ℕ, suc, zero, List, [], ◌∷◌, ◌==◌, ◌+◌, ◌*◌, if◌then◌else◌}
use software_prototypes.Machine.{Act, ok, pure, hung, ask, tell, gets, modify, ◌>>=◌, ◌>>◌}
use software_prototypes.Copy.{Memory, put}

-- The soft DMA engines, and the DMA engine of the low power domain.
pub data Engine : Type 0 where
  fpd lpd cci0 cci1 zdma : Engine

pub data BoardCall : Type 0 where
  out32 : (address value : ℕ) → BoardCall
  in32 : (address : ℕ) → BoardCall
  set_tlb_attributes : (address attributes : ℕ) → BoardCall
  data_barrier : BoardCall
  -- the look-up of a driver's configuration and its initialisation
  initialize : Engine → BoardCall
  gpio_initialize : (device : ℕ) → BoardCall
  gpio_write : (channel word : ℕ) → BoardCall
  -- the mode of the low power domain's engine, and the data configuration with this cache attribute
  zdma_set_mode : BoardCall
  zdma_set_data_config : (cache : ℕ) → BoardCall
  ipi_initialize : BoardCall
  flush_range : (address bytes : ℕ) → BoardCall
  transfer : Engine → (src dest bytes : ℕ) → BoardCall
  is_busy : Engine → BoardCall
  -- to the R5
  write_message : List ℕ → BoardCall
  trigger_ipi poll_for_ack : BoardCall
  -- the print of a byte of the destination
  readback : (byte : ℕ) → BoardCall

abbrev pub Board : Type 0 → Type 0
Board A = Act BoardCall Memory A

abbrev pub buffer_bytesize : ℕ
buffer_bytesize = 64

abbrev pub src_buffer : ℕ
src_buffer = 0x40000

abbrev pub dst_buffer : ℕ
dst_buffer = 0x60000

abbrev pub enable_snoop : ℕ
enable_snoop = 1

abbrev pub norm_wb_out_cache : ℕ
norm_wb_out_cache = 0x605

-- The loops of `initBuffers`, and of the writes behind it.
unfoldable pub init_loop : (left index pattern_byte : ℕ) → Memory → Memory
init_loop zero index pattern_byte m = m
init_loop (suc n) index pattern_byte m =
    init_loop n (suc index) pattern_byte
      (put (dst_buffer + index) 0 (put (src_buffer + index) pattern_byte m))

unfoldable pub write_loop : (left index byte : ℕ) → Memory → Memory
write_loop zero index byte m = m
write_loop (suc n) index byte m = write_loop n (suc index) byte (put (dst_buffer + index) byte m)

unfoldable pub init_buffers : (pattern_byte : ℕ) → Board (Unit {0})
init_buffers pattern_byte = do
  modify (init_loop buffer_bytesize 0 pattern_byte)
  tell (flush_range src_buffer buffer_bytesize)
  tell (flush_range dst_buffer buffer_bytesize)

-- `while (XAxiCdma_IsBusy(...))`, on fuel.
unfoldable pub wait_idle : (fuel : ℕ) → Engine → Board (Unit {0})
wait_idle zero engine = hung
wait_idle (suc n) engine = do
  let rest = wait_idle n engine
  busy ← ask (is_busy engine)
  if busy == 0 then pure tt else rest

-- The end of a test.
abbrev pub read_back : Board (Unit {0})
read_back = do byte ← gets (λ m. m dst_buffer); tell (readback byte)

abbrev pub engine_id : Engine → ℕ
engine_id fpd = 0
engine_id lpd = 1
engine_id cci0 = 2
engine_id cci1 = 3
engine_id zdma = 4

-- The words of the message that was last written for the R5.
unfoldable pub last_message : List BoardCall → List ℕ
last_message [] = []
last_message (write_message words ∷ l) = words
last_message (c ∷ l) = last_message l

-- What a DMA engine does to the memory for a transfer, and the R5 for a message, behind the calls so far.
module _ (device : List BoardCall → Engine → (src dest bytes : ℕ) → Memory → Memory)
    (rpu : List BoardCall → (message : List ℕ) → Memory → Memory) where
  -- The transfer that an engine was last asked for.
  unfoldable pub transferred : Engine → List BoardCall → Memory → Memory
  transferred engine [] m = m
  transferred engine (transfer started src dest bytes ∷ l) m =
      if engine_id started == engine_id engine
      then device l started src dest bytes m
      else transferred engine l m
  transferred engine (c ∷ l) m = transferred engine l m

  -- The message that was in the buffer when the R5 was last interrupted.
  unfoldable pub served : List BoardCall → Memory → Memory
  served [] m = m
  served (trigger_ipi ∷ l) m = rpu l (last_message l) m
  served (c ∷ l) m = served l m

  -- The memory changes by what the calls have asked for.
  abbrev by_calls : (List BoardCall → Memory → Memory) → Board (Unit {0})
  by_calls f e w = (ok tt, record w { globals = f w.log w.globals })

  -- The test of one DMA engine, which has done its transfer when it is idle.
  unfoldable pub dma_test : (fuel : ℕ) → Engine → (pattern_byte : ℕ) → Board (Unit {0})
  dma_test fuel engine pattern_byte = do
    init_buffers pattern_byte
    modify (write_loop buffer_bytesize 0 0xFF)
    tell (transfer engine src_buffer dst_buffer buffer_bytesize)
    wait_idle fuel engine
    by_calls (transferred engine)
    read_back

  -- The test of the R5, which has served its interrupt when the acknowledgement is there.
  unfoldable pub rpu_test : Board (Unit {0})
  rpu_test = do
    init_buffers 0x5A
    modify (write_loop buffer_bytesize 0 0xFF)
    tell (write_message (src_buffer ∷ dst_buffer ∷ buffer_bytesize ∷ []))
    tell trigger_ipi
    tell poll_for_ack
    by_calls served
    read_back
