-- ===== src/Fsbl/Image/HeaderInfo.antt =====
-- What `GetPartitionHeaderInfo` of zynq-7000-tips-tricks/fsbl/image_mover.c leaves behind when it
-- succeeds.
use software_prototypes.Base.{
  ℕ, ◌≤◌, ◌<◌, ◌≡◌, ◌⊎◌, inl, inr, sym, ◌*◌, ◌∷◌, List, [], arith, get_or, if◌then◌else◌,
}
use software_prototypes.Word.{add32}
use mathlib.Core.Path.{subst}
use software_prototypes.Machine.{Env, World, ok, success, failure}
use software_prototypes.Fsbl.Layout.{Layout}
use software_prototypes.Fsbl.Header.{Header, is_last_partition, get_partition_count}
use software_prototypes.Fsbl.Header.EndMarker.{get_partition_count_first}
use software_prototypes.Fsbl.System.{
  Config, Globals, Call, move_image, header_offset, fsbl_length_var, header_table,
}
use software_prototypes.Fsbl.Image.{split_headers, check_partition_count, get_partition_header_info}

-- The table that the image holds, as `LoadPartitionsHeaderInfo` reads it at some call.
abbrev pub table_at : Config → Env Call → List Call → Call → List Header
table_at c e log k = split_headers c.layout.max_partitions c.layout.word_count (e.words log k)

count_bounds :
    (c : Config) (n : ℕ)
    → check_partition_count c n ≡ success
    → (n < c.layout.max_partitions) × ((if c.mmc_support then 0 else 2) ≤ n)
unfolding check_partition_count
count_bounds c n p = ground arith

-- A count below the size of the table is the index of an end marker.
found :
    (l : Layout) (hs : List Header)
    → get_partition_count l hs < l.max_partitions
    → (get_partition_count l hs ≡ l.max_partitions)
      ⊎ (is_last_partition l (get_or hs (get_partition_count l hs) []) ≡ success)
    → is_last_partition l (get_or hs (get_partition_count l hs) []) ≡ success
found l hs p (inl none) = absurd (omega arith)
found l hs p (inr last) = last

module _ (c : Config) (e : Env Call) (base : ℕ) (w : World Call Globals) where
  pub header_info-count :
      (get_partition_header_info c base e w).0 ≡ ok success
      → let g = (get_partition_header_info c base e w).1.globals in
        (g.partition_count ≡ get_partition_count c.layout g.partition_header)
        × (check_partition_count c g.partition_count ≡ success)
  unfolding get_partition_header_info
  header_info-count r = ground arith

  -- The calls that read the length of the loader, the offset of the table, and the table.
  abbrev length_call : Call
  length_call = move_image (add32 base c.image_tot_byte_len_offset) fsbl_length_var 4

  abbrev offset_call : Call
  offset_call = move_image (add32 base c.image_phdr_offset) header_offset 4

  abbrev table_call : Call
  table_call =
      move_image (add32 (get_or (e.words (length_call ∷ w.log) offset_call) 0 0) base) header_table
        (c.part_header_size * c.layout.max_partitions)

  header_info-table :
      (get_partition_header_info c base e w).0 ≡ ok success
      → (get_partition_header_info c base e w).1.globals.partition_header
        ≡ table_at c e (offset_call ∷ length_call ∷ w.log) table_call
  unfolding get_partition_header_info
  header_info-table r = ground arith

  -- What holds of every table that the image can hold, holds of the table after a success.
  pub header_info_ind :
      (P : List Header → Type 0)
      → ((log : List Call) (k : Call) → P (table_at c e log k))
      → (get_partition_header_info c base e w).0 ≡ ok success
      → P (get_partition_header_info c base e w).1.globals.partition_header
  header_info_ind P all r = subst P (sym (header_info-table r)) (all _ _)

  -- After a successful read the number of partitions is below MAX_PARTITION_NUMBER, and at least 2
  -- in a build without MMC; the header at that number is an end marker, and no header before it is.
  pub header_info_bounds :
      (get_partition_header_info c base e w).0 ≡ ok success
      → let g = (get_partition_header_info c base e w).1.globals in
        (g.partition_count < c.layout.max_partitions)
        × ((if c.mmc_support then 0 else 2) ≤ g.partition_count)
        × (is_last_partition c.layout (get_or g.partition_header g.partition_count []) ≡ success)
        × ((k : ℕ)
            → k < g.partition_count
            → is_last_partition c.layout (get_or g.partition_header k []) ≡ failure)
  header_info_bounds r =
      let hs = (get_partition_header_info c base e w).1.globals.partition_header in
      let (n, ok_count) = header_info-count r in
      let (_, before, here) = get_partition_count_first c.layout hs in
      let marker = found c.layout hs (rw (← n) (count_bounds c _ ok_count).0) here in
      let (below, least) = count_bounds c _ ok_count in
      (below, least, rw n marker, λ k p. before k (rw (← n) p))
