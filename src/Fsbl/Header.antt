-- ===== src/Fsbl/Header.antt =====
-- The partition headers of zynq-7000-tips-tricks/fsbl/image_mover.c: the tests on one header, and
-- the count of a table of headers. A header is the list of its words, as `struct HeaderArray` reads
-- it; a word out of the list reads as 0, and the theorems speak of headers of the right length.
pub mod Checksum
pub mod Zeros
pub mod EndMarker
use Prim.Native.Nat.{bit_xor}
use software_prototypes.Base.{
  ℕ, zero, suc, ◌-◌, ◌<◌, ◌≡◌, ◌⊎◌, inl, inr, refl, List, [], ◌∷◌, ltb, ◌==◌, if◌then◌else◌, get_or,
  length, All,
}
use software_prototypes.Machine.{Status, success, failure}
use software_prototypes.Word.{u32_mod, u32_max, add32}
use software_prototypes.Fsbl.Layout.{Layout}

abbrev pub Header : Type 0
Header = List ℕ

-- MAXIMUM_IMAGE_WORD_LEN
abbrev pub maximum_image_word_len : ℕ
maximum_image_word_len = 0x40000000

-- A header as the table holds it: all its words, each of 32 bits.
pub record IsHeader (l : Layout) (h : Header) : Type 0 where
  pub size : length h ≡ l.word_count
  pub words : All (λ w. w < u32_mod) h

-- The loop that returns XST_FAILURE at the first word that is not zero, over `n` words from `i`.
unfoldable pub scan_zero : ℕ → ℕ → Header → Status
scan_zero zero i h = success
scan_zero (suc n) i h =
    let rest = scan_zero n (suc i) h in if get_or h i 0 == 0 then rest else failure

-- The loop `Checksum += H->Fields[Count]`, over `n` words from `i`.
unfoldable pub checksum_loop : ℕ → ℕ → ℕ → Header → ℕ
checksum_loop zero i acc h = acc
checksum_loop (suc n) i acc h = checksum_loop n (suc i) (add32 acc (get_or h i 0)) h

module _ (l : Layout) where
  unfoldable pub is_empty_header : Header → Status
  is_empty_header h = scan_zero l.word_count 0 h

  unfoldable pub validate_partition_header_checksum : Header → Status
  validate_partition_header_checksum h =
      if get_or h l.checksum_word 0 == bit_xor (checksum_loop l.checksum_word 0 0 h) u32_max
      then success
      else failure

  unfoldable pub is_last_partition : Header → Status
  is_last_partition h =
      if get_or h l.checksum_word 0 == u32_max then scan_zero (l.word_count - 1) 0 h else failure

  unfoldable pub validate_header : Header → Status
  validate_header h = elim (is_empty_header h) [
    | success ↦ failure
    | failure ↦ elim (validate_partition_header_checksum h) [
      | failure ↦ failure
      | success ↦
          if ltb maximum_image_word_len (get_or h l.image_word_len 0) then failure else success
    ]
  ]

  -- The loop of `GetPartitionCount`, over `n` headers from index `i` on.
  unfoldable pub count_loop : ℕ → ℕ → List Header → ℕ
  count_loop zero i hs = i
  count_loop (suc n) i hs =
      let rest = count_loop n (suc i) hs in
      elim (is_last_partition (get_or hs i [])) [ success ↦ i | failure ↦ rest ]

  unfoldable pub get_partition_count : List Header → ℕ
  get_partition_count hs = count_loop l.max_partitions 0 hs
