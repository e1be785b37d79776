-- ===== src/Fsbl/Partition.antt =====
-- The body of the loop of `LoadBootImage` in zynq-7000-tips-tricks/fsbl/image_mover.c: one partition
-- from the check of its header to the hook after the bitstream download.
pub mod Frame
pub mod Stages
pub mod Authentic
use software_prototypes.Base.{
  ℕ, ◌+◌, Bool, true, false, not, ◌&&◌, ◌||◌, List, [], ◌==◌, ltb, leb, if◌then◌else◌, get_or,
}
use Prim.Native.Nat.{bit_and}
use software_prototypes.Word.{add32, sub32, shl32}
use software_prototypes.Machine.{
  Status, success, failure, pure, call, ask, tell, fetch, gets, modify, when, stopped, ◌>>=◌, ◌>>◌,
}
use software_prototypes.Fsbl.Layout.{Layout}
use software_prototypes.Fsbl.Header.{Header, validate_header}
use software_prototypes.Fsbl.System.{
  Config, Globals, in32, out32, devcfg_read, output_status, pcap_load_partition, sha_256,
  hook_before_bitstream_dload, hook_after_bitstream_dload, dcache_enable, dcache_flush,
  dcache_disable, authenticate_partition, invalid_header_fail, partition_load_fail,
  invalid_load_address_fail, before_bstream_hook_fail, after_bstream_hook_fail, partition_move_fail,
  partition_checksum_fail, authentication_fail, decryption_fail, bitstream_download_fail,
  rsa_support_not_enabled_fail, Fsbl, fallback, require, has, member,
}
use software_prototypes.Fsbl.Image.{validate_partition}
use software_prototypes.Fsbl.Move.{partition_move, decrypt_partition}

-- ExecAddress and ExecAddrFlag, which live across the rounds of the loop.
pub record Locals : Type 0 where
  pub exec_address : ℕ
  pub exec_addr_flag : Bool

-- What a part of the body does next: go on, `continue` with the next partition, or `break`.
pub data Flow : Type 0 where
  proceed skip leave : Flow

-- How a round ends: with the next partition, or out of the loop.
pub data Round : Type 0 where
  next : Locals → Round
  exit : Locals → Round

module _ (c : Config) where
  open c use {layout}

  -- From the test of ATTRIBUTE_PL_IMAGE_MASK to the one of ATTRIBUTE_PS_IMAGE_MASK.
  unfoldable pub classify_pl : ℕ → Fsbl Flow
  classify_pl attr =
      if has attr c.pl_image_mask
      then (do
        modify λ g. record g { pl = true; ps = false; bitstream = true }
        late ← gets Globals.application
        if late then pure leave else if c.no_cpu_warm_reboot then pure proceed else (do
          reason ← ask (in32 0xF800702C)
          if has reason 0x80000000
              then (do modify λ g. record g { bitstream = false }; pure skip)
              else pure proceed))
      else pure proceed

  unfoldable pub classify_ps : ℕ → Fsbl (Unit {0})
  classify_ps attr =
      when (has attr c.ps_image_mask)
        (modify λ g. record g { ps = true; pl = false; application = true })

  -- EncryptedPartitionFlag, the check of EFUSE_SEC_EN, PartitionChecksumFlag and
  -- SignedPartitionFlag.
  unfoldable pub set_flags : Header → Fsbl (Unit {0})
  set_flags h = do
    let encrypted = not (member h layout.data_word_len == member h layout.image_word_len)
    modify λ g. record g { encrypted = encrypted }
    when (not c.force_use_aes_exclude) (do
      status ← ask (devcfg_read c.devcfg_status_offset)
      if has status c.efuse_sec_en_mask && not encrypted
          then fallback partition_load_fail
          else pure tt)
    let attr = member h layout.partition_attr
    modify λ g. record g {
      checksum = has attr c.checksum_type_mask;
      signed = has attr c.rsa_present_mask;
    }

  -- The checks of the load address, which only a build with DDR makes.
  unfoldable pub check_load_addr : ℕ → Fsbl Flow
  check_load_addr load = do
    g ← gets (λ g. g)
    if c.has_ddr && g.ps
        then if ltb load c.ddr_start_addr
          then if load == 0 && not (g.signed || g.encrypted)
            then pure leave
            else fallback invalid_load_address_fail
          else if ltb c.ddr_end_addr load
          then fallback invalid_load_address_fail
          else pure proceed
        else pure proceed

  -- The address of the partition in linear QSPI, for a build without DDR.
  unfoldable pub flash_addr : ℕ → Header → ℕ
  flash_addr base h =
      add32 (add32 base (shl32 (member h layout.partition_start) 2)) c.flash_read_base_address

  unfoldable pub runs_from_flash : ℕ → Bool
  runs_from_flash exec = leb c.qspi_flash_baseaddr exec && leb exec c.qspi_flash_highaddr

  -- The partitions that a build without DDR moves.
  unfoldable pub moves_without_ddr : Globals → (exec load : ℕ) → Bool
  moves_without_ddr g exec load =
      (g.pl && not g.signed)
      || (not g.pl
          && ((not (exec == 0)
                && (ltb exec c.qspi_flash_baseaddr || ltb c.qspi_flash_highaddr exec))
              || (leb 0xFFFF0000 load && exec == 0)
              || (load == 0x40000000 && exec == 0)))

  -- The addresses that the second stage finds in high OCM, for a build without DDR.
  unfoldable pub note_addresses : ℕ → Header → Fsbl (Unit {0})
  note_addresses base h = do
    let start = flash_addr base h
    let load = member h layout.load_addr
    when (runs_from_flash (member h layout.exec_addr)) (tell (out32 0xFFFF0004 start))
    g ← gets (λ g. g)
    when (g.ps && leb 0xFFFC0000 load && ltb load 0xFFFF0000) (tell (out32 0xFFFF0000 start))

  unfoldable pub move_partition : ℕ → Header → Fsbl (Unit {0})
  move_partition base h = require (partition_move c base h) partition_move_fail

  unfoldable pub move_some : ℕ → Header → Fsbl (Unit {0})
  move_some base h = do
    g ← gets (λ g. g)
    when (moves_without_ddr g (member h layout.exec_addr) (member h layout.load_addr))
        (move_partition base h)

  -- The move, and PartitionStartAddr after it.
  unfoldable pub move_or_locate : ℕ → Header → Fsbl ℕ
  move_or_locate base h = elim c.has_ddr [
    | true ↦ do move_partition base h; pure (member h layout.partition_start)
    | false ↦ do note_addresses base h; move_some base h; pure (flash_addr base h)
  ]

  unfoldable pub check_checksum : (base start : ℕ) → Header → Fsbl (Unit {0})
  check_checksum base start h = do
    g ← gets (λ g. g)
    when g.checksum (
        require
          (validate_partition c start (shl32 (member h layout.partition_word_len) 2)
            (add32 base (shl32 (member h layout.checksum_offset) 2)))
          partition_checksum_fail)

  unfoldable pub check_signature : (start : ℕ) → Header → Fsbl (Unit {0})
  check_signature start h = do
    g ← gets (λ g. g)
    when g.signed (
        if c.rsa_support
        then (do
          let size = shl32 (member h layout.partition_word_len) 2
          tell dcache_enable
          (_, hash) ← fetch (sha_256 start (sub32 size c.rsa_partition_signature_size))
          let ac = sub32 (add32 start size) c.rsa_signature_size
          s ← call (authenticate_partition ac hash)
          tell dcache_flush
          tell dcache_disable
          elim s [ success ↦ pure tt | failure ↦ fallback authentication_fail ])
        else fallback rsa_support_not_enabled_fail)

  unfoldable pub decrypt_ps : (start : ℕ) → Header → Fsbl (Unit {0})
  decrypt_ps start h = do
    g ← gets (λ g. g)
    when (g.encrypted && g.ps) (
        require
          (decrypt_partition c start (member h layout.data_word_len)
            (member h layout.image_word_len))
          decryption_fail)

  unfoldable pub load_checked_pl : (start : ℕ) → Header → Fsbl (Unit {0})
  load_checked_pl start h = do
    g ← gets (λ g. g)
    when g.pl (
        require
          (call (
            pcap_load_partition start (member h layout.load_addr) (member h layout.image_word_len)
              (member h layout.data_word_len) g.encrypted))
          bitstream_download_fail)

  -- From the signature to the download of a checked PL partition.
  unfoldable pub check_signed : (start : ℕ) → Header → Fsbl (Unit {0})
  unfolding check_signature decrypt_ps load_checked_pl
  check_signed start h = do check_signature start h; decrypt_ps start h; load_checked_pl start h

  unfoldable pub check_both : (base start : ℕ) → Header → Fsbl (Unit {0})
  check_both base start h = do check_checksum base start h; check_signed start h

  -- PartitionStartAddr where the checks read the partition.
  abbrev pub checked_addr : Globals → (start : ℕ) → Header → ℕ
  checked_addr g start h =
      if c.has_ddr then if g.pl then c.ddr_temp_start_addr else member h layout.load_addr else start

  -- What is done with a partition that is signed or has a checksum.
  unfoldable pub check_partition : (base start : ℕ) → Header → Fsbl (Unit {0})
  check_partition base start h = do
    g ← gets (λ g. g)
    when (g.signed || g.checksum) (check_both base (checked_addr g start h) h)

  unfoldable pub hook_before : Fsbl (Unit {0})
  hook_before = do
    g ← gets (λ g. g)
    when g.pl (require (call hook_before_bitstream_dload) before_bstream_hook_fail)

  unfoldable pub hook_after : Fsbl (Unit {0})
  hook_after = do
    g ← gets (λ g. g)
    when g.pl (require (call hook_after_bitstream_dload) after_bstream_hook_fail)

  -- ExecAddress and ExecAddrFlag after the step that keeps the first PS partition's address.
  unfoldable pub keep_exec : Globals → Locals → Header → Locals
  keep_exec g loc h =
      if g.ps && not loc.exec_addr_flag
      then record { exec_address = member h layout.exec_addr; exec_addr_flag = true }
      else loc

  unfoldable pub check_and_finish : (base start : ℕ) → Locals → Header → Fsbl Round
  check_and_finish base start loc h = do check_partition base start h; hook_after; pure (next loc)

  unfoldable pub move_and_check : ℕ → Locals → Header → Fsbl Round
  move_and_check base loc h = do start ← move_or_locate base h; check_and_finish base start loc h

  -- From the first PS partition's execution address to the hook after the download.
  unfoldable pub transfer : ℕ → Locals → Header → Fsbl Round
  transfer base loc h = do g ← gets (λ g. g); hook_before; move_and_check base (keep_exec g loc h) h

  unfoldable pub load_flagged : ℕ → Locals → Header → Fsbl Round
  load_flagged base loc h = do
    f ← check_load_addr (member h layout.load_addr)
    elim f [ leave ↦ pure (exit loc) | skip ↦ pure (next loc) | proceed ↦ transfer base loc h ]

  unfoldable pub load_classified : ℕ → Locals → Header → Fsbl Round
  load_classified base loc h = do
    classify_ps (member h layout.partition_attr)
    set_flags h
    load_flagged base loc h

  unfoldable pub load_owned : ℕ → Locals → Header → Fsbl Round
  load_owned base loc h = do
    f ← classify_pl (member h layout.partition_attr)
    elim f [
      | leave ↦ pure (exit loc)
      | skip ↦ pure (next loc)
      | proceed ↦ load_classified base loc h
    ]

  -- One round of the loop, on the partition of number `num`.
  unfoldable pub load_partition : ℕ → ℕ → Locals → Fsbl Round
  load_partition base num loc = do
    g ← gets (λ g. g)
    let h = get_or g.partition_header num []
    elim (validate_header layout h) [
      | failure ↦ fallback invalid_header_fail
      | success ↦
          if bit_and (member h layout.partition_attr) c.owner_mask == c.owner_fsbl
          then load_owned base loc h
          else pure (next loc)
    ]
