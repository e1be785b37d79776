-- ===== src/Fsbl/Tests.antt =====
-- Runs of the model of zynq-7000-tips-tricks/fsbl/image_mover.c on a small image, and its theorems at
-- concrete inputs.
use software_prototypes.Base.{
  ℕ, suc, ◌≤◌, ◌<◌, ◌≡◌, ◌↔◌, refl, true, false, List, [], ◌∷◌, ◌++◌, arith, get_or, set, ◌%◌, ◌⊎◌,
  replicate,
}
use software_prototypes.Word.{u32_mod, u32_max}
use software_prototypes.Machine.{Env, World, ok, stop, success, failure}
use software_prototypes.Fsbl.Layout.{Layout, IsLayout}
use software_prototypes.Fsbl.Header.{
  Header, IsHeader, maximum_image_word_len, validate_partition_header_checksum, validate_header,
  is_last_partition, get_partition_count, count_loop, scan_zero, is_empty_header, checksum_loop,
}
use software_prototypes.Fsbl.Header.Checksum.{sum, validate_checksum_iff, corruption_detected}
use software_prototypes.Fsbl.Header.Zeros.{validate_header_iff}
use software_prototypes.Fsbl.System.{
  move_image, header_table, checksum_var, md5, sha_256, Config, Globals, Call, later,
  pcap_load_partition,
}
use software_prototypes.Fsbl.Image.{split_headers, get_partition_header_info, validate_partition}
use software_prototypes.Fsbl.Image.HeaderInfo.{header_info_bounds}
use software_prototypes.Fsbl.Image.Digest.{SameBytes, validate_partition_iff}
use software_prototypes.Fsbl.Load.{
  load_boot_image, image_start_address, boot_from, read_headers, set_up, rsa_setup, efuse_status,
  after_setup, load_partitions, load_loop, after_round,
}
use software_prototypes.Fsbl.Move.{partition_move}
use software_prototypes.Fsbl.Partition.{
  load_partition, load_owned, load_classified, load_flagged, transfer, hook_before, keep_exec,
  move_and_check, move_or_locate, move_partition, check_and_finish, check_partition, check_both,
  check_checksum, check_signed, hook_after, classify_pl, classify_ps, set_flags, check_load_addr,
}
use software_prototypes.Fsbl.Load.Returns.{load_boot_image_returns}

abbrev layout : Layout
layout = record {
  word_count = 16;
  checksum_word = 15;
  max_partitions = 14;
  image_word_len = 0;
  data_word_len = 1;
  partition_word_len = 2;
  load_addr = 3;
  exec_addr = 4;
  partition_start = 5;
  partition_attr = 6;
  checksum_offset = 8;
  ac_offset = 10;
}

layout-IsLayout : IsLayout layout
layout-IsLayout = record { last_word = refl; room = omega arith }

-- A signed bitstream of four words.
abbrev bitstream_header : Header
bitstream_header = 4 ∷ 4 ∷ 4 ∷ 0 ∷ 0 ∷ 16 ∷ 0x8020 ∷ 1 ∷ 0 ∷ 0 ∷ 0 ∷ 0 ∷ 0 ∷ 0 ∷ 0 ∷ 0xFFFF7FC2 ∷ []

bitstream_header-IsHeader : IsHeader layout bitstream_header
bitstream_header-IsHeader = record { size = refl; words = omega arith }

abbrev marker : Header
marker = 0 ∷ 0 ∷ 0 ∷ 0 ∷ 0 ∷ 0 ∷ 0 ∷ 0 ∷ 0 ∷ 0 ∷ 0 ∷ 0 ∷ 0 ∷ 0 ∷ 0 ∷ 0xFFFFFFFF ∷ []

marker-IsHeader : IsHeader layout marker
marker-IsHeader = record { size = refl; words = omega arith }

abbrev config : Config
config = record {
  layout = layout;
  has_ddr = true;
  rsa_support = true;
  rsa_without_efuses = false;
  mmc_support = false;
  no_cpu_warm_reboot = true;
  force_use_aes_exclude = true;
  has_watchdog = false;
  silicon_version = later;
  flash_read_base_address = 0xFC000000;
  linear_boot_device = true;
  reboot_status_reg = 0xF8000258;
  baseaddr_holder = 0xFFFFFFF0;
  multiboot_addr_offset = 0x2C;
  devcfg_status_offset = 0x14;
  efuse_status_reg = 0xF800D010;
  rsa_ac_start = 0x30000;
  partition_header_addr = 0x20000;
  header_temp = 0x21000;
  ddr_start_addr = 0x100000;
  ddr_end_addr = 0x3FFFFFFF;
  ddr_temp_start_addr = 0x200000;
  qspi_flash_baseaddr = 0xFC000000;
  qspi_flash_highaddr = 0xFCFFFFFF;
  fsbl_fail_mask = 0xF000;
  mboot_reboot_offset_mask = 0x1FFF;
  golden_image_offset = 0x8000;
  efuse_rsa_enable_mask = 0x400;
  efuse_sec_en_mask = 0x2;
  image_phdr_offset = 0x9C;
  image_hdr_offset = 0x98;
  image_tot_byte_len_offset = 0x40;
  owner_mask = 0x30000;
  owner_fsbl = 0;
  pl_image_mask = 0x20;
  ps_image_mask = 0x10;
  checksum_type_mask = 0x7000;
  rsa_present_mask = 0x8000;
  part_header_size = 64;
  image_header_table_size = 64;
  total_image_header_size = 896;
  total_partition_header_size = 896;
  total_header_size = 1856;
  rsa_signature_size = 1728;
  rsa_partition_signature_size = 256;
  xst_failure = 1;
}

-- Every call succeeds and every register reads 0; the image holds a table with two headers, and each hash
-- is of 32 bytes.
abbrev env : Env Call
env = record {
  status = λ log k. success;
  value = λ log k. 0;
  words = λ log k. elim k [
    | move_image source header_table size ↦ bitstream_header ++ (bitstream_header ++ marker)
    | sha_256 source size ↦ replicate 32 0xA5
    | move_image source checksum_var size ↦ replicate 16 0x5A
    | md5 source size ↦ replicate 16 0x5A
    | _ ↦ []
  ];
}

abbrev cleared : Globals
cleared = record {
  encrypted = false;
  pl = false;
  ps = false;
  signed = false;
  checksum = false;
  bitstream = false;
  application = false;
  partition_header = [];
  partition_count = 0;
  fsbl_length = 0;
}

abbrev start : World Call Globals
start = record { log = []; globals = cleared }

load_boot_image_returns_example :
    let r = (load_boot_image config env start).0 in ((a : ℕ) × (r ≡ ok a)) ⊎ (r ≡ stop)
load_boot_image_returns_example = load_boot_image_returns config env start

checksum_sums :
    (validate_partition_header_checksum layout bitstream_header ≡ success)
    ↔ (sum bitstream_header % u32_mod ≡ u32_max)
checksum_sums =
    validate_checksum_iff layout layout-IsLayout bitstream_header bitstream_header-IsHeader

checksum_ok : validate_partition_header_checksum layout bitstream_header ≡ success
checksum_ok = checksum_sums.1 refl

-- A changed load address is noticed.
corruption_detected_example :
    validate_partition_header_checksum layout (set bitstream_header 3 0x100000) ≡ failure
corruption_detected_example =
    corruption_detected layout layout-IsLayout bitstream_header 3 0x100000 bitstream_header-IsHeader
      checksum_ok (omega arith) (omega arith) (omega arith)

validate_header_iff_example :
    (validate_header layout bitstream_header ≡ success)
    ↔ ((sum bitstream_header % u32_mod ≡ u32_max) × (4 ≤ maximum_image_word_len))
validate_header_iff_example =
    validate_header_iff layout layout-IsLayout bitstream_header bitstream_header-IsHeader

header_info_ok : (get_partition_header_info config 0 env start).0 ≡ ok success
unfolding get_partition_header_info get_partition_count count_loop is_last_partition scan_zero
header_info_ok = refl

header_info_bounds_example :
    let g = (get_partition_header_info config 0 env start).1.globals in
    (g.partition_count < 14)
    × (2 ≤ g.partition_count)
    × (is_last_partition layout (get_or g.partition_header g.partition_count []) ≡ success)
    × ((k : ℕ)
        → k < g.partition_count
        → is_last_partition layout (get_or g.partition_header k []) ≡ failure)
header_info_bounds_example = header_info_bounds config env 0 start header_info_ok

validate_partition_iff_example :
    ((validate_partition config 0x200000 16 0x100 env start).0 ≡ ok success)
    ↔ ((success ≡ success) × SameBytes 16 0 (replicate 16 0x5A) (replicate 16 0x5A))
validate_partition_iff_example = validate_partition_iff config env 0x200000 16 0x100 start

abbrev downloads : List Call → ℕ
downloads [] = 0
downloads (pcap_load_partition _ _ _ _ _ ∷ log) = suc (downloads log)
downloads (_ ∷ log) = downloads log

-- The run above downloads the one bitstream behind the loader's own partition.
run_downloads : downloads (load_boot_image config env start).1.log ≡ 1
unfolding load_boot_image image_start_address boot_from read_headers set_up rsa_setup efuse_status
    after_setup load_partitions load_loop after_round load_partition load_owned load_classified
    load_flagged transfer hook_before keep_exec move_and_check move_or_locate move_partition
    partition_move check_and_finish check_partition check_both check_checksum check_signed
    hook_after classify_pl classify_ps set_flags check_load_addr get_partition_header_info
    split_headers get_partition_count count_loop is_last_partition scan_zero validate_header
    is_empty_header validate_partition_header_checksum checksum_loop
run_downloads = refl
