-- ===== src/Coherency/Settings.antt =====
-- The settings that the calls of the cache coherency demos leave, and those of each demo's set-up under which
-- the interconnect is coherent.
use software_prototypes.Base.{
  ℕ, Bool, true, false, ◌≡◌, refl, ◌&&◌, List, [], ◌∷◌, ◌==◌, if◌then◌else◌,
}
use software_prototypes.Coherency.{
  Engine, fpd, lpd, cci0, cci1, zdma, BoardCall, out32, set_tlb_attributes, data_barrier,
  initialize, gpio_initialize, gpio_write, zdma_set_data_config, ipi_initialize, flush_range,
  transfer, is_busy, write_message, trigger_ipi, poll_for_ack, readback, engine_id, dst_buffer,
  enable_snoop, norm_wb_out_cache,
}
use software_prototypes.Coherency.Zynqmp
use software_prototypes.Coherency.Versal

-- The last write to a register was this value.
unfoldable pub written : (address value : ℕ) → List BoardCall → Bool
written address value [] = false
written address value (out32 a v ∷ l) = if a == address then v == value else written address value l
written address value (c ∷ l) = written address value l

-- The destination was made outer cacheable, with a barrier behind.
unfoldable pub tlb_set : List BoardCall → Bool
tlb_set [] = false
tlb_set (set_tlb_attributes address attributes ∷ l) =
    address == dst_buffer && attributes == norm_wb_out_cache
tlb_set (c ∷ l) = tlb_set l

unfoldable pub outer_cacheable : List BoardCall → Bool
unfolding tlb_set
outer_cacheable [] = false
outer_cacheable (set_tlb_attributes address attributes ∷ l) = false
outer_cacheable (data_barrier ∷ l) = tlb_set l
outer_cacheable (c ∷ l) = outer_cacheable l

unfoldable pub initialized : Engine → List BoardCall → Bool
initialized engine [] = false
initialized engine (initialize started ∷ l) =
    if engine_id started == engine_id engine then true else initialized engine l
initialized engine (c ∷ l) = initialized engine l

-- The GPIO device last initialised, and the word last written on a channel of a device.
unfoldable pub selected : (device : ℕ) → List BoardCall → Bool
selected device [] = false
selected device (gpio_initialize d ∷ l) = d == device
selected device (c ∷ l) = selected device l

unfoldable pub gpio_set : (device channel word : ℕ) → List BoardCall → Bool
unfolding selected
gpio_set device channel word [] = false
gpio_set device channel word (gpio_write c w ∷ l) =
    if c == channel && selected device l then w == word else gpio_set device channel word l
gpio_set device channel word (c ∷ l) = gpio_set device channel word l

unfoldable pub zdma_cache : (cache : ℕ) → List BoardCall → Bool
zdma_cache cache [] = false
zdma_cache cache (zdma_set_data_config c ∷ l) = c == cache
zdma_cache cache (c ∷ l) = zdma_cache cache l

unfoldable pub ipi_ready : List BoardCall → Bool
ipi_ready [] = false
ipi_ready (ipi_initialize ∷ l) = true
ipi_ready (c ∷ l) = ipi_ready l

-- The settings of main_a53.c: snooping, the destination's attributes, and for each engine its
-- initialisation and the attributes of its accesses.
unfoldable pub zynqmp_coherent : List BoardCall → Bool
unfolding written outer_cacheable initialized gpio_set zdma_cache ipi_ready
zynqmp_coherent l =
    written Zynqmp.snoop_control_s3 enable_snoop l
    && (outer_cacheable l
        && (initialized fpd l
            && (gpio_set 0 1 Zynqmp.axi_attr l
                && (initialized lpd l
                    && (gpio_set 0 2 Zynqmp.axi_attr l
                        && (initialized zdma l
                            && (zdma_cache Zynqmp.axi_attr l
                                && (written Zynqmp.slcr_adma 0 l && ipi_ready l))))))))

-- The settings of main_a72.c, with the routes through the interconnect.
unfoldable pub versal_coherent : List BoardCall → Bool
unfolding written outer_cacheable initialized gpio_set zdma_cache ipi_ready
versal_coherent l =
    written Versal.snoop_control_si4 enable_snoop l
    && (outer_cacheable l
        && (initialized fpd l
            && (gpio_set 0 1 Versal.axi_attr l
                && (written Versal.pl_acelite_fpd_tz 0 l
                    && (initialized lpd l
                        && (gpio_set 0 2 Versal.axi_attr l
                            && (written Versal.pl_axi_lpd_tz 0 l
                                && (written Versal.pl_axi_lpd_route 1 l
                                    && (initialized cci0 l
                                        && (gpio_set 1 1 Versal.axi_attr l
                                            && (initialized cci1 l
                                                && (gpio_set 1 2 Versal.axi_attr l
                                                    && (initialized zdma l
                                                        && (zdma_cache Versal.axi_attr l
                                                            && (written Versal.dma_ch0_tz 0 l
                                                            && (written Versal.dma_route 1 l
                                                            && (written Versal.rpu0_route 1 l
                                                            && ipi_ready l)))))))))))))))))

-- The calls of a test, which change no setting.
unfoldable pub is_inert : BoardCall → Bool
is_inert (flush_range address bytes) = true
is_inert (transfer engine src dest bytes) = true
is_inert (is_busy engine) = true
is_inert (write_message words) = true
is_inert trigger_ipi = true
is_inert poll_for_ack = true
is_inert (readback byte) = true
is_inert c = false

unfoldable pub Inert : (List BoardCall → Bool) → Type 0
Inert coherent =
    (c : BoardCall) (l : List BoardCall) → is_inert c ≡ true → coherent (c ∷ l) ≡ coherent l

pub zynqmp_coherent-Inert : Inert zynqmp_coherent
unfolding zynqmp_coherent Inert is_inert written outer_cacheable initialized gpio_set zdma_cache
    ipi_ready
zynqmp_coherent-Inert (flush_range address bytes) l h = refl
zynqmp_coherent-Inert (transfer engine src dest bytes) l h = refl
zynqmp_coherent-Inert (is_busy engine) l h = refl
zynqmp_coherent-Inert (write_message words) l h = refl
zynqmp_coherent-Inert trigger_ipi l h = refl
zynqmp_coherent-Inert poll_for_ack l h = refl
zynqmp_coherent-Inert (readback byte) l h = refl
zynqmp_coherent-Inert c l h = cc

pub versal_coherent-Inert : Inert versal_coherent
unfolding versal_coherent Inert is_inert written outer_cacheable initialized gpio_set zdma_cache
    ipi_ready
versal_coherent-Inert (flush_range address bytes) l h = refl
versal_coherent-Inert (transfer engine src dest bytes) l h = refl
versal_coherent-Inert (is_busy engine) l h = refl
versal_coherent-Inert (write_message words) l h = refl
versal_coherent-Inert trigger_ipi l h = refl
versal_coherent-Inert poll_for_ack l h = refl
versal_coherent-Inert (readback byte) l h = refl
versal_coherent-Inert c l h = cc
