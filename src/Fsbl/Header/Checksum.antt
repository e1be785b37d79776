-- ===== src/Fsbl/Header/Checksum.antt =====
-- `ValidatePartitionHeaderChecksum` of zynq-7000-tips-tricks/fsbl/image_mover.c against the sum of
-- all the words of a header.
use software_prototypes.Base.{
  ℕ, zero, suc, ◌+◌, ◌%◌, ◌<◌, ◌≡◌, ◌≢◌, ◌↔◌, refl, ◌∙◌, [], ◌∷◌, arith, get_or, set, length,
  length-set, All,
}
use software_prototypes.Word.{u32_mod, u32_max, add32, bit_xor-max}
use software_prototypes.Fsbl.Layout.{Layout, IsLayout}
use software_prototypes.Machine.{Status, success, failure}
use software_prototypes.Fsbl.Header.{
  Header, IsHeader, checksum_loop, validate_partition_header_checksum,
}

-- The sum of the words, as numbers without a bound.
abbrev pub sum : Header → ℕ
sum [] = 0
sum (w ∷ h) = w + sum h

checksum_loop-cons :
    (n i acc w : ℕ) (h : Header) → checksum_loop n (suc i) acc (w ∷ h) ≡ checksum_loop n i acc h
unfolding checksum_loop
checksum_loop-cons zero i acc w h = refl
checksum_loop-cons (suc n) i acc w h = checksum_loop-cons n (suc i) (add32 acc (get_or h i 0)) w h

checksum_loop-lt : (n i acc : ℕ) (h : Header) → acc < u32_mod → checksum_loop n i acc h < u32_mod
unfolding checksum_loop
checksum_loop-lt zero i acc h p = p
checksum_loop-lt (suc n) i acc h p =
    checksum_loop-lt n (suc i) (add32 acc (get_or h i 0)) h (omega arith)

-- The loop over all words but the last, and the last, make up the sum modulo 2 ^ 32.
checksum_loop-sum :
    (n acc : ℕ) (h : Header)
    → length h ≡ suc n
    → (checksum_loop n 0 acc h + get_or h n 0) % u32_mod ≡ (acc + sum h) % u32_mod
unfolding checksum_loop
checksum_loop-sum n acc [] e = absurd (omega arith)
checksum_loop-sum zero acc (w ∷ []) e = omega arith
checksum_loop-sum zero acc (w ∷ v ∷ h) e = absurd (omega arith)
checksum_loop-sum (suc n) acc (w ∷ h) e =
    rw (checksum_loop-cons n 0 (add32 acc w) w h)
      (checksum_loop-sum n (add32 acc w) h (omega arith) ∙ omega arith)

get_or-lt : (h : Header) (i : ℕ) → All (λ w. w < u32_mod) h → get_or h i 0 < u32_mod
get_or-lt [] i a = omega arith
get_or-lt (w ∷ h) zero a = a.0
get_or-lt (w ∷ h) (suc i) a = get_or-lt h i a.1

sum-set : (h : Header) (i v : ℕ) → i < length h → sum (set h i v) + get_or h i 0 ≡ sum h + v
sum-set [] i v p = absurd (omega arith)
sum-set (w ∷ h) zero v p = omega arith
sum-set (w ∷ h) (suc i) v p = omega (arith, sum-set h i v (omega arith))

All-set :
    (h : Header) (i v : ℕ)
    → All (λ w. w < u32_mod) h
    → v < u32_mod
    → All (λ w. w < u32_mod) (set h i v)
All-set [] i v a p = tt
All-set (w ∷ h) zero v a p = (p, a.1)
All-set (w ∷ h) (suc i) v a p = (a.0, All-set h i v a.1 p)

set-IsHeader :
    (l : Layout) (h : Header) (i v : ℕ) → IsHeader l h → v < u32_mod → IsHeader l (set h i v)
set-IsHeader l h i v ih p = record {
  size = length-set h i v ∙ ih.size;
  words = All-set h i v ih.words p;
}

not_success→failure : (s : Status) → ¬ (s ≡ success) → s ≡ failure
not_success→failure success h = absurd (h refl)
not_success→failure failure h = refl

module _ (l : Layout) (il : IsLayout l) where
  -- A header passes the checksum test exactly when the sum of all its words, the checksum word
  -- included, is 0xFFFFFFFF modulo 2 ^ 32.
  pub validate_checksum_iff :
      (h : Header)
      → IsHeader l h
      → (validate_partition_header_checksum l h ≡ success) ↔ (sum h % u32_mod ≡ u32_max)
  unfolding validate_partition_header_checksum
  validate_checksum_iff h ih =
      let c = checksum_loop l.checksum_word 0 0 h in
      ground (
        arith,
        il.last_word,
        checksum_loop-sum l.checksum_word 0 h (omega (arith, il.last_word, ih.size)),
        checksum_loop-lt l.checksum_word 0 0 h (omega arith),
        bit_xor-max c (checksum_loop-lt l.checksum_word 0 0 h (omega arith)),
        get_or-lt h l.checksum_word ih.words,
      )

  -- A valid header in which one word has been replaced by another 32-bit word is refused.
  pub corruption_detected :
      (h : Header) (i v : ℕ)
      → IsHeader l h
      → validate_partition_header_checksum l h ≡ success
      → i < l.word_count
      → v < u32_mod
      → v ≢ get_or h i 0
      → validate_partition_header_checksum l (set h i v) ≡ failure
  corruption_detected h i v ih ok p q ne = not_success→failure _ λ good. ne (same_word good)
    where
      same_word : validate_partition_header_checksum l (set h i v) ≡ success → v ≡ get_or h i 0
      same_word good = omega (
        arith,
        sum-set h i v (omega (arith, ih.size)),
        get_or-lt h i ih.words,
        (validate_checksum_iff h ih).0 ok,
        (validate_checksum_iff (set h i v) (set-IsHeader l h i v ih q)).0 good,
      )
