-- ===== src/Fsbl/System.antt =====
-- What zynq-7000-tips-tricks/fsbl/image_mover.c works with: its build options and the constants of
-- headers that the repository does not hold (`Config`), its global variables, and the functions and
-- registers outside the file that it calls (`Call`).
use Prim.Native.Nat.{bit_and}
use software_prototypes.Base.{ℕ, Bool, not, List, ◌==◌, get_or}
use software_prototypes.Machine.{Status, success, failure, Act, pure, stopped, tell, ◌>>=◌, ◌>>◌}
use software_prototypes.Fsbl.Layout.{Layout}
use software_prototypes.Fsbl.Header.{Header}

-- Silicon_Version: SILICON_VERSION_1, SILICON_VERSION_2, or any other.
pub data Silicon : Type 0 where
  version_1 version_2 later : Silicon

pub record Config : Type 0 where
  pub layout : Layout
  -- The symbols of `#ifdef`: XPAR_PS7_DDR_0_S_AXI_BASEADDR, RSA_SUPPORT, RSA_WITHOUT_EFUSES,
  -- MMC_SUPPORT, NO_CPU_WARM_REBOOT, FORCE_USE_AES_EXCLUDE and XPAR_XWDTPS_0_BASEADDR.
  pub has_ddr : Bool
  pub rsa_support : Bool
  pub rsa_without_efuses : Bool
  pub mmc_support : Bool
  pub no_cpu_warm_reboot : Bool
  pub force_use_aes_exclude : Bool
  pub has_watchdog : Bool
  -- The `extern` variables, which this file only reads.
  pub silicon_version : Silicon
  pub flash_read_base_address : ℕ
  pub linear_boot_device : Bool
  -- Registers and addresses.
  pub reboot_status_reg : ℕ
  pub baseaddr_holder : ℕ
  pub multiboot_addr_offset : ℕ
  pub devcfg_status_offset : ℕ
  pub efuse_status_reg : ℕ
  pub rsa_ac_start : ℕ
  pub partition_header_addr : ℕ
  pub header_temp : ℕ
  pub ddr_start_addr : ℕ
  pub ddr_end_addr : ℕ
  pub ddr_temp_start_addr : ℕ
  pub qspi_flash_baseaddr : ℕ
  pub qspi_flash_highaddr : ℕ
  -- Masks and offsets.
  pub fsbl_fail_mask : ℕ
  pub mboot_reboot_offset_mask : ℕ
  pub golden_image_offset : ℕ
  pub efuse_rsa_enable_mask : ℕ
  pub efuse_sec_en_mask : ℕ
  pub image_phdr_offset : ℕ
  pub image_hdr_offset : ℕ
  pub image_tot_byte_len_offset : ℕ
  pub owner_mask : ℕ
  pub owner_fsbl : ℕ
  pub pl_image_mask : ℕ
  pub ps_image_mask : ℕ
  pub checksum_type_mask : ℕ
  pub rsa_present_mask : ℕ
  -- Sizes in bytes, and the value of XST_FAILURE.
  pub part_header_size : ℕ
  pub image_header_table_size : ℕ
  pub total_image_header_size : ℕ
  pub total_partition_header_size : ℕ
  pub total_header_size : ℕ
  pub rsa_signature_size : ℕ
  pub rsa_partition_signature_size : ℕ
  pub xst_failure : ℕ

pub record Globals : Type 0 where
  pub encrypted : Bool
  pub pl : Bool
  pub ps : Bool
  pub signed : Bool
  pub checksum : Bool
  pub bitstream : Bool
  pub application : Bool
  pub partition_header : List Header
  pub partition_count : ℕ
  pub fsbl_length : ℕ

-- The codes of `OutputStatus`.
pub data Failure : Type 0 where
  get_header_info_fail rsa_support_not_enabled_fail invalid_header_fail : Failure
  partition_load_fail invalid_load_address_fail before_bstream_hook_fail : Failure
  partition_move_fail partition_checksum_fail authentication_fail : Failure
  decryption_fail bitstream_download_fail after_bstream_hook_fail : Failure

-- Where `MoveImage` writes: an address of the memory map, or a variable of this file.
pub data Dest : Type 0 where
  memory : ℕ → Dest
  header_offset fsbl_length_var header_table checksum_var : Dest

pub data Call : Type 0 where
  -- Xil_In32, a read through a pointer, XDcfg_ReadReg, Xil_Out32
  in32 load32 devcfg_read : ℕ → Call
  out32 : ℕ → ℕ → Call
  output_status : Failure → Call
  -- MoveImage: source, destination, length in bytes
  move_image : ℕ → Dest → ℕ → Call
  -- PcapDataTransfer, PcapLoadPartition: source, destination, image and data length in words, and
  -- whether to decrypt
  pcap_data_transfer : ℕ → ℕ → ℕ → ℕ → Bool → Call
  pcap_load_partition : ℕ → ℕ → ℕ → ℕ → Bool → Call
  hook_before_bitstream_dload hook_after_bitstream_dload set_ppk restart_wdt : Call
  dcache_enable dcache_flush dcache_disable sha2_starts sha2_finish : Call
  sha2_update sha_256 md5 : ℕ → ℕ → Call
  -- AuthenticatePartition: the certificate's address and the hash
  authenticate_partition : ℕ → List ℕ → Call

abbrev pub Fsbl : Type 0 → Type 0
Fsbl A = Act Call Globals A

-- OutputStatus(f); FsblFallback();
abbrev pub fallback : {A : Type 0} → Failure → Fsbl A
fallback f = tell (output_status f) >> stopped

-- Status = m; if (Status != XST_SUCCESS) { OutputStatus(f); FsblFallback(); }
abbrev pub require : Fsbl Status → Failure → Fsbl (Unit {0})
require m f = m >>= λ s. elim s [ success ↦ pure tt | failure ↦ fallback f ]

-- attr & mask, as a condition
abbrev pub has : ℕ → ℕ → Bool
has attr mask = not (bit_and attr mask == 0)

-- A member of a partition header.
abbrev pub member : Header → ℕ → ℕ
member h i = get_or h i 0
