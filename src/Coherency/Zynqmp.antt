-- ===== src/Coherency/Zynqmp.antt =====
-- zynqmp-cache-coherency/Software/main_a53.c, on the A53.
use Prim.Native.Nat.{bit_or}
use software_prototypes.Base.{ℕ, List}
use software_prototypes.Machine.{ask, tell, ◌>>=◌, ◌>>◌}
use software_prototypes.Copy.{Memory}
use software_prototypes.Coherency.{
  BoardCall, Engine, fpd, lpd, zdma, out32, in32, set_tlb_attributes, data_barrier, initialize,
  gpio_initialize, gpio_write, zdma_set_mode, zdma_set_data_config, ipi_initialize, Board,
  dst_buffer, enable_snoop, norm_wb_out_cache, dma_test, rpu_test,
}

abbrev pub slcr_adma : ℕ
slcr_adma = 0xFF4B0024

abbrev pub snoop_control_s3 : ℕ
snoop_control_s3 = 0xFD6E4000

abbrev rpu_0_cfg : ℕ
rpu_0_cfg = 0xFF9A0100

-- AXI_ATTR(AXI_PROT, CACHE_OA_M)
abbrev pub axi_attr : ℕ
axi_attr = 0xB

unfoldable pub fpd_cdma_configuration : Board (Unit {0})
fpd_cdma_configuration = do
  tell (initialize fpd)
  tell (gpio_initialize 0)
  tell (gpio_write 1 axi_attr)

unfoldable pub lpd_cdma_configuration : Board (Unit {0})
lpd_cdma_configuration = do
  tell (initialize lpd)
  tell (gpio_initialize 0)
  tell (gpio_write 2 axi_attr)

unfoldable pub lpd_dma_configuration : Board (Unit {0})
lpd_dma_configuration = do
  tell (initialize zdma)
  tell zdma_set_mode
  tell (zdma_set_data_config axi_attr)
  tell (out32 slcr_adma 0)

unfoldable pub rpu_configuration : Board (Unit {0})
rpu_configuration = do
  tell ipi_initialize
  cfg ← ask (in32 rpu_0_cfg)
  tell (out32 rpu_0_cfg (bit_or cfg 2))

-- What comes before the tests.
unfoldable pub configure : Board (Unit {0})
unfolding fpd_cdma_configuration lpd_cdma_configuration lpd_dma_configuration rpu_configuration
configure = do
  tell (out32 snoop_control_s3 enable_snoop)
  tell (set_tlb_attributes dst_buffer norm_wb_out_cache)
  tell data_barrier
  fpd_cdma_configuration
  lpd_cdma_configuration
  lpd_dma_configuration
  rpu_configuration

module _ (device : List BoardCall → Engine → (src dest bytes : ℕ) → Memory → Memory)
    (rpu : List BoardCall → (message : List ℕ) → Memory → Memory) where
  -- Each wait has this fuel.
  unfoldable pub main : (fuel : ℕ) → Board (Unit {0})
  main fuel = do
    configure
    dma_test device rpu fuel fpd 0x36
    dma_test device rpu fuel lpd 0x37
    dma_test device rpu fuel zdma 0xA5
    rpu_test device rpu
