-- ===== src/Fsbl/Image.antt =====
-- Reading the image's headers and checking what they promise, in
-- zynq-7000-tips-tricks/fsbl/image_mover.c: `GetPartitionHeaderInfo` and what it calls,
-- `GetNAuthImageHeader`, and `ValidateParition`.
pub mod HeaderInfo
pub mod Digest
use software_prototypes.Base.{
  ℕ, zero, suc, ◌*◌, Bool, true, false, not, ◌&&◌, List, [], ◌∷◌, ◌==◌, ltb, leb, if◌then◌else◌,
  get_or, take, drop,
}
use software_prototypes.Word.{add32, sub32}
use software_prototypes.Machine.{
  Status, success, failure, pure, call, tell, fetch, gets, modify, when, ◌>>=◌, ◌>>◌,
}
use software_prototypes.Fsbl.Layout.{Layout}
use software_prototypes.Fsbl.Header.{Header, get_partition_count}
use software_prototypes.Fsbl.System.{
  Config, Globals, memory, header_offset, fsbl_length_var, header_table, checksum_var, move_image,
  set_ppk, restart_wdt, sha2_starts, sha2_finish, sha2_update, md5, authenticate_partition, Fsbl,
}

-- The table of headers in the words that were read for it.
unfoldable pub split_headers : (count words : ℕ) → List ℕ → List Header
split_headers zero w ws = []
split_headers (suc n) w ws = take w ws ∷ split_headers n w (drop w ws)

-- MD5_CHECKSUM_SIZE
abbrev pub md5_checksum_size : ℕ
md5_checksum_size = 16

-- The loop of `ValidateParition` that compares the bytes `i` to `i + n - 1`.
unfoldable pub compare_bytes : ℕ → ℕ → List ℕ → List ℕ → Status
compare_bytes zero i xs ys = success
compare_bytes (suc n) i xs ys =
    let rest = compare_bytes n (suc i) xs ys in
    if get_or xs i 0 == get_or ys i 0 then rest else failure

module _ (c : Config) where
  open c use {layout}

  unfoldable pub get_fsbl_length : ℕ → Fsbl Status
  get_fsbl_length base = do
    (s, ws) ← fetch (move_image (add32 base c.image_tot_byte_len_offset) fsbl_length_var 4)
    modify λ g. record g { fsbl_length = get_or ws 0 0 }
    pure s

  unfoldable pub get_partition_header_start_addr : ℕ → Fsbl (Status × ℕ)
  get_partition_header_start_addr base = do
    (s, ws) ← fetch (move_image (add32 base c.image_phdr_offset) header_offset 4)
    pure (s, get_or ws 0 0)

  unfoldable pub get_image_header_start_addr : ℕ → Fsbl (Status × ℕ)
  get_image_header_start_addr base = do
    (s, ws) ← fetch (move_image (add32 base c.image_hdr_offset) header_offset 4)
    pure (s, get_or ws 0 0)

  unfoldable pub load_partitions_header_info : ℕ → Fsbl Status
  unfolding split_headers
  load_partitions_header_info offset = do
    (s, ws) ← fetch (move_image offset header_table (c.part_header_size * layout.max_partitions))
    modify λ g. record g {
      partition_header = split_headers layout.max_partitions layout.word_count ws;
    }
    pure s

  -- The check of PartitionCount at the end of `GetPartitionHeaderInfo`.
  unfoldable pub check_partition_count : ℕ → Status
  check_partition_count n =
      if leb layout.max_partitions n
      then failure
      else if not c.mmc_support && leb n 1
      then failure
      else success

  unfoldable pub get_partition_header_info : ℕ → Fsbl Status
  unfolding get_fsbl_length get_partition_header_start_addr load_partitions_header_info
      check_partition_count
  get_partition_header_info base = do
    s ← get_fsbl_length base
    elim s [
      | failure ↦ pure failure
      | success ↦ do
        (t, offset) ← get_partition_header_start_addr base
        elim t [
          | failure ↦ pure failure
          | success ↦ do
            u ← load_partitions_header_info (add32 offset base)
            elim u [
              | failure ↦ pure failure
              | success ↦ do
                hs ← gets Globals.partition_header
                let n = get_partition_count layout hs
                modify λ g. record g { partition_count = n }
                pure (check_partition_count n)
            ]
        ]
    ]

  -- The second half of `GetNAuthImageHeader`, from `Offset = Offset + TOTAL_PARTITION_HEADER_SIZE`.
  unfoldable pub get_n_auth_signature : (base temp size offset : ℕ) → Fsbl Status
  get_n_auth_signature base temp size offset = do
    let at = add32 offset c.total_partition_header_size
    let size' =
        sub32 (add32 c.total_header_size c.rsa_signature_size)
          (add32 size c.total_partition_header_size)
    s ← call (move_image (add32 base at) (memory temp) size')
    elim s [
      | failure ↦ pure failure
      | success ↦ do
        tell (sha2_update temp (sub32 size' c.rsa_partition_signature_size))
        (_, hash) ← fetch sha2_finish
        call (authenticate_partition (add32 temp 64) hash)
    ]

  -- The hash of the image headers, the partition headers and the signature block, and its
  -- authentication. `HdrTmpPtr` is DDR_TEMP_START_ADDR, or a static buffer where there is no DDR.
  unfoldable pub get_n_auth_image_header : ℕ → Fsbl Status
  unfolding get_image_header_start_addr get_partition_header_start_addr get_n_auth_signature
  get_n_auth_image_header base = do
    (s, offset) ← get_image_header_start_addr base
    elim s [
      | failure ↦ pure failure
      | success ↦ do
        let temp = if c.has_ddr then c.ddr_temp_start_addr else c.header_temp
        let size = add32 c.image_header_table_size c.total_image_header_size
        t ← call (move_image (add32 base offset) (memory temp) size)
        elim t [
          | failure ↦ pure failure
          | success ↦ do
            tell sha2_starts
            tell (sha2_update temp size)
            tell (sha2_update c.partition_header_addr c.total_partition_header_size)
            (u, offset') ← get_partition_header_start_addr base
            elim u [
              | failure ↦ pure failure
              | success ↦ get_n_auth_signature base temp size offset'
            ]
        ]
    ]

  unfoldable pub get_partition_checksum : ℕ → Fsbl (Status × List ℕ)
  get_partition_checksum offset = fetch (move_image offset checksum_var md5_checksum_size)

  -- `md5` returns nothing, and `CalcPartitionChecksum` always XST_SUCCESS.
  unfoldable pub calc_partition_checksum : ℕ → ℕ → Fsbl (Status × List ℕ)
  calc_partition_checksum source length = do
    (_, sum) ← fetch (md5 source length)
    pure (success, sum)

  unfoldable pub validate_partition : ℕ → ℕ → ℕ → Fsbl Status
  unfolding get_partition_checksum calc_partition_checksum
  validate_partition start length offset = do
    when c.has_watchdog (tell restart_wdt)
    (s, stored) ← get_partition_checksum offset
    elim s [
      | failure ↦ pure failure
      | success ↦ do
        (t, computed) ← calc_partition_checksum start length
        elim t [
          | failure ↦ pure failure
          | success ↦ pure (compare_bytes md5_checksum_size 0 stored computed)
        ]
    ]
