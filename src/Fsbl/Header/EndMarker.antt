-- ===== src/Fsbl/Header/EndMarker.antt =====
-- The header that ends the table, and `GetPartitionCount`, of
-- zynq-7000-tips-tricks/fsbl/image_mover.c.
use software_prototypes.Base.{
  ◌⊎◌, ℕ, zero, suc, ◌+◌, ◌-◌, ◌≤◌, ◌<◌, ◌≡◌, ◌↔◌, refl, ap, List, [], ◌∷◌, ◌++◌, arith, get_or,
  length, replicate, inl, inr,
}
use software_prototypes.Word.{u32_max}
use software_prototypes.Fsbl.Layout.{Layout, IsLayout}
use software_prototypes.Machine.{Status-cases, success, failure}
use software_prototypes.Fsbl.Header.{
  Header, IsHeader, is_last_partition, count_loop, get_partition_count,
}
use native.Mathlib.Decide.{ℕ_discrete, dec_lt}
use software_prototypes.Fsbl.Header.Zeros.{split_at, scan_zero_iff}

-- Zeros, and 0xFFFFFFFF in the checksum word.
abbrev pub end_marker : Layout → Header
end_marker l = replicate l.checksum_word 0 ++ (u32_max ∷ [])

split_last : (n : ℕ) (h : Header) → length h ≡ suc n → h ≡ (split_at n h).0 ++ (get_or h n 0 ∷ [])
split_last n [] e = absurd (omega arith)
split_last zero (w ∷ []) e = refl
split_last zero (w ∷ v ∷ h) e = absurd (omega arith)
split_last (suc n) (w ∷ h) e = ap (◌∷◌ w) (split_last n h (omega arith))

-- A list of zeros with one word behind it has that word last, and the zeros before.
split_at-replicate : (n w : ℕ) → (split_at n (replicate n 0 ++ (w ∷ []))).0 ≡ replicate n 0
split_at-replicate zero w = refl
split_at-replicate (suc n) w = ap (◌∷◌ 0) (split_at-replicate n w)

get_or-replicate : (n w : ℕ) → get_or (replicate n 0 ++ (w ∷ [])) n 0 ≡ w
get_or-replicate zero w = refl
get_or-replicate (suc n) w = get_or-replicate n w

module _ (l : Layout) (il : IsLayout l) where
  word_count-pred : l.word_count - 1 ≡ l.checksum_word
  word_count-pred = omega (arith, il.last_word)

  -- `IsLastPartition` accepts exactly the end marker.
  is_last_partition_iff :
      (h : Header) → IsHeader l h → (is_last_partition l h ≡ success) ↔ (h ≡ end_marker l)
  unfolding is_last_partition
  is_last_partition_iff h ih = ground (
    arith,
    il.last_word,
    scan_zero_iff l.checksum_word h (omega (arith, il.last_word, ih.size)),
    split_last l.checksum_word h (omega (arith, il.last_word, ih.size)),
    split_at-replicate l.checksum_word u32_max,
    get_or-replicate l.checksum_word u32_max,
  )

module _ (l : Layout) where
  count_loop-ge : (n i : ℕ) (hs : List Header) → i ≤ count_loop l n i hs
  unfolding count_loop
  count_loop-ge zero i hs = omega arith
  count_loop-ge (suc n) i hs = ground (arith, count_loop-ge n (suc i) hs)

  count_loop-le : (n i : ℕ) (hs : List Header) → count_loop l n i hs ≤ i + n
  unfolding count_loop
  count_loop-le zero i hs = omega arith
  count_loop-le (suc n) i hs = ground (arith, count_loop-le n (suc i) hs)

  count_loop_before :
      (n i : ℕ) (hs : List Header) (k : ℕ)
      → i ≤ k
      → k < count_loop l n i hs
      → is_last_partition l (get_or hs k []) ≡ failure
  unfolding count_loop
  count_loop_before zero i hs k p q = absurd (omega arith)
  count_loop_before (suc n) i hs k p q = elim (ℕ_discrete i k) [
    | yes e ↦ rw (← e) (ground (arith, ap (λ j. is_last_partition l (get_or hs j [])) e))
    | no ne ↦ ground (arith, count_loop_before n (suc i) hs k (omega arith))
  ]

  count_loop_last :
      (n i : ℕ) (hs : List Header)
      → is_last_partition l (get_or hs i []) ≡ success
      → count_loop l (suc n) i hs ≡ i
  unfolding count_loop
  count_loop_last n i hs last = ground arith

  count_loop_more :
      (n i : ℕ) (hs : List Header)
      → is_last_partition l (get_or hs i []) ≡ failure
      → count_loop l (suc n) i hs ≡ count_loop l n (suc i) hs
  unfolding count_loop
  count_loop_more n i hs more = ground arith

  count_loop_stop :
      (n i : ℕ) (hs : List Header)
      → count_loop l n i hs < i + n
      → is_last_partition l (get_or hs (count_loop l n i hs) []) ≡ success
  count_loop_stop zero i hs p = absurd (omega (arith, count_loop-ge zero i hs))
  count_loop_stop (suc n) i hs p = elim (Status-cases (is_last_partition l (get_or hs i []))) [
    | inl last ↦ rw (count_loop_last n i hs last) last
    | inr more ↦
        rw (count_loop_more n i hs more)
          (count_loop_stop n (suc i) hs (omega (arith, count_loop_more n i hs more)))
  ]

  -- The number of partitions is the index of the first end marker, or the size of the table if it
  -- holds none.
  pub get_partition_count_first :
      (hs : List Header)
      → (get_partition_count l hs ≤ l.max_partitions)
        × ((k : ℕ) → k < get_partition_count l hs → is_last_partition l (get_or hs k []) ≡ failure)
        × ((get_partition_count l hs ≡ l.max_partitions)
            ⊎ (is_last_partition l (get_or hs (get_partition_count l hs) []) ≡ success))
  unfolding get_partition_count
  get_partition_count_first hs =
      let le = count_loop-le l.max_partitions 0 hs in
      let n = count_loop l l.max_partitions 0 hs in
      (
        omega arith,
        λ k. count_loop_before l.max_partitions 0 hs k (omega arith),
        elim (dec_lt n l.max_partitions) [
          | yes p ↦ inr (count_loop_stop l.max_partitions 0 hs (omega arith))
          | no p ↦ inl (omega arith)
        ],
      )
