-- ===== src/Fsbl/Layout.antt =====
-- What zynq-7000-tips-tricks/fsbl/image_mover.c takes from image_mover.h and fsbl.h, which the
-- repository does not hold: the sizes of a partition header and where its fields stand.
use software_prototypes.Base.{ℕ, suc, ◌<◌, ◌≡◌}

-- The constants, and the word at which each member of `PartHeader` stands.
pub record Layout : Type 0 where
  -- PARTITION_HDR_WORD_COUNT, PARTITION_HDR_CHECKSUM_WORD_COUNT and MAX_PARTITION_NUMBER
  pub word_count : ℕ
  pub checksum_word : ℕ
  pub max_partitions : ℕ
  pub image_word_len : ℕ
  pub data_word_len : ℕ
  pub partition_word_len : ℕ
  pub load_addr : ℕ
  pub exec_addr : ℕ
  pub partition_start : ℕ
  pub partition_attr : ℕ
  pub checksum_offset : ℕ
  pub ac_offset : ℕ

-- The checksum is the last word of a header, and the table has room for a header.
pub record IsLayout (l : Layout) : Type 0 where
  pub last_word : l.word_count ≡ suc l.checksum_word
  pub room : 0 < l.max_partitions
