-- ===== src/Coherency/RpuStart.antt =====
-- `main` of zynqmp-cache-coherency/Software/main_r5.c and versal-cache-coherency/Software/main_r5.c, which installs
-- `IpiIntrHandler` and then waits. It is a fixed sequence of calls, of which no result is read.
use software_prototypes.Base.{ℕ, ◌≡◌, refl, Bool, false, List, [], ◌∷◌, if◌then◌else◌}
use software_prototypes.Word.{u32_max}

-- DataAbortHandler, XScuGic_InterruptHandler and IpiIntrHandler
pub data Handler : Type 0 where
  data_abort_handler xscugic_interrupt_handler ipi_intr_handler : Handler

pub data StartCall : Type 0 where
  register_exception_handler gic_connect : Handler → StartCall
  dcache_disable exception_enable : StartCall
  ipi_lookup_config ipi_cfg_initialize : StartCall
  gic_lookup_config gic_cfg_initialize gic_enable : StartCall
  ipi_interrupt_enable ipi_clear_interrupt_status : (mask : ℕ) → StartCall
  out32 : (address word : ℕ) → StartCall

abbrev pub slcr_rpu : ℕ
slcr_rpu = 0xFF4B0020

-- XIPIPSU_ALL_MASK is of the driver's header.
module _ (xipipsu_all_mask : ℕ) where
  -- `el1_testapp` is the build option EL1_TESTAPP.
  unfoldable pub zynqmp_r5_main : (el1_testapp : Bool) → List StartCall
  zynqmp_r5_main el1_testapp =
      register_exception_handler data_abort_handler
      ∷ dcache_disable
      ∷ ipi_lookup_config
      ∷ ipi_cfg_initialize
      ∷ gic_lookup_config
      ∷ gic_cfg_initialize
      ∷ register_exception_handler xscugic_interrupt_handler
      ∷ gic_connect ipi_intr_handler
      ∷ gic_enable
      ∷ exception_enable
      ∷ ipi_interrupt_enable xipipsu_all_mask
      ∷ ipi_clear_interrupt_status xipipsu_all_mask
      ∷ (if el1_testapp then out32 slcr_rpu u32_max ∷ [] else [])

  unfoldable pub versal_r5_main : List StartCall
  versal_r5_main =
      register_exception_handler data_abort_handler
      ∷ dcache_disable
      ∷ ipi_lookup_config
      ∷ ipi_cfg_initialize
      ∷ gic_lookup_config
      ∷ gic_cfg_initialize
      ∷ register_exception_handler xscugic_interrupt_handler
      ∷ gic_connect ipi_intr_handler
      ∷ gic_enable
      ∷ exception_enable
      ∷ ipi_interrupt_enable xipipsu_all_mask
      ∷ ipi_clear_interrupt_status xipipsu_all_mask
      ∷ []

  -- Without the option, the two programs make the same calls.
  zynqmp_r5_main-versal_r5_main : zynqmp_r5_main false ≡ versal_r5_main
  unfolding zynqmp_r5_main versal_r5_main
  zynqmp_r5_main-versal_r5_main = refl
