-- ===== src/Coherency/Versal.antt =====
-- versal-cache-coherency/Software/main_a72.c, on the A72.
use software_prototypes.Base.{ℕ, List}
use software_prototypes.Machine.{tell, ◌>>◌}
use software_prototypes.Copy.{Memory}
use software_prototypes.Coherency.{
  BoardCall, Engine, fpd, lpd, cci0, cci1, zdma, out32, set_tlb_attributes, data_barrier,
  initialize, gpio_initialize, gpio_write, zdma_set_mode, zdma_set_data_config, ipi_initialize,
  Board, dst_buffer, enable_snoop, norm_wb_out_cache, dma_test, rpu_test,
}

abbrev pub snoop_control_si4 : ℕ
snoop_control_si4 = 0xFD005000

abbrev pub pl_acelite_fpd_tz : ℕ
pl_acelite_fpd_tz = 0xFD690118

abbrev pub pl_axi_lpd_tz : ℕ
pl_axi_lpd_tz = 0xFF510050

abbrev pub dma_ch0_tz : ℕ
dma_ch0_tz = 0xFF510060

abbrev pub dma_route : ℕ
dma_route = 0xFE600014

abbrev pub pl_axi_lpd_route : ℕ
pl_axi_lpd_route = 0xFE600018

abbrev pub rpu0_route : ℕ
rpu0_route = 0xFE60001C

-- CACHE_OA_M, and AXI_ATTR(PROT_UP_S_D, CACHE_OA_M)
abbrev pub axi_attr : ℕ
axi_attr = 0x6

unfoldable pub fpd_cdma_configuration : Board (Unit {0})
fpd_cdma_configuration = do
  tell (initialize fpd)
  tell (gpio_initialize 0)
  tell (gpio_write 1 axi_attr)
  tell (out32 pl_acelite_fpd_tz 0)

unfoldable pub lpd_cdma_configuration : Board (Unit {0})
lpd_cdma_configuration = do
  tell (initialize lpd)
  tell (gpio_initialize 0)
  tell (gpio_write 2 axi_attr)
  tell (out32 pl_axi_lpd_tz 0)
  tell (out32 pl_axi_lpd_route 1)

unfoldable pub cci0_cdma_configuration : Board (Unit {0})
cci0_cdma_configuration = do
  tell (initialize cci0)
  tell (gpio_initialize 1)
  tell (gpio_write 1 axi_attr)

unfoldable pub cci1_cdma_configuration : Board (Unit {0})
cci1_cdma_configuration = do
  tell (initialize cci1)
  tell (gpio_initialize 1)
  tell (gpio_write 2 axi_attr)

unfoldable pub lpd_dma_configuration : Board (Unit {0})
lpd_dma_configuration = do
  tell (initialize zdma)
  tell zdma_set_mode
  tell (zdma_set_data_config axi_attr)
  tell (out32 dma_ch0_tz 0)
  tell (out32 dma_route 1)

unfoldable pub rpu_configuration : Board (Unit {0})
rpu_configuration = do tell ipi_initialize; tell (out32 rpu0_route 1)

-- What comes before the tests.
unfoldable pub configure : Board (Unit {0})
unfolding fpd_cdma_configuration lpd_cdma_configuration cci0_cdma_configuration
    cci1_cdma_configuration lpd_dma_configuration rpu_configuration
configure = do
  tell (out32 snoop_control_si4 enable_snoop)
  tell (set_tlb_attributes dst_buffer norm_wb_out_cache)
  tell data_barrier
  fpd_cdma_configuration
  lpd_cdma_configuration
  cci0_cdma_configuration
  cci1_cdma_configuration
  lpd_dma_configuration
  rpu_configuration

module _ (device : List BoardCall → Engine → (src dest bytes : ℕ) → Memory → Memory)
    (rpu : List BoardCall → (message : List ℕ) → Memory → Memory) where
  -- Each wait has this fuel.
  unfoldable pub main : (fuel : ℕ) → Board (Unit {0})
  main fuel = do
    configure
    dma_test device rpu fuel fpd 0x36
    dma_test device rpu fuel lpd 0x37
    dma_test device rpu fuel cci0 0x38
    dma_test device rpu fuel cci1 0x39
    dma_test device rpu fuel zdma 0xA5
    rpu_test device rpu
