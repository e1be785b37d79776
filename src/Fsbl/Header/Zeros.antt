-- ===== src/Fsbl/Header/Zeros.antt =====
-- The loop of `IsEmptyHeader` and `IsLastPartition` of zynq-7000-tips-tricks/fsbl/image_mover.c, and
-- `ValidateHeader`.
use software_prototypes.Base.{
  ℕ, zero, suc, ◌%◌, ◌≤◌, ◌≡◌, ◌↔◌, refl, [], ◌∷◌, arith, get_or, length, replicate,
}
use software_prototypes.Word.{u32_mod, u32_max}
use software_prototypes.Fsbl.Layout.{Layout, IsLayout}
use software_prototypes.Machine.{success}
use software_prototypes.Fsbl.Header.{
  Header, IsHeader, scan_zero, maximum_image_word_len, is_empty_header, validate_header,
}
use software_prototypes.Fsbl.Header.Checksum.{sum, validate_checksum_iff}

scan_zero-cons : (n i w : ℕ) (h : Header) → scan_zero n (suc i) (w ∷ h) ≡ scan_zero n i h
unfolding scan_zero
scan_zero-cons zero i w h = refl
scan_zero-cons (suc n) i w h = ground (arith, scan_zero-cons n (suc i) w h)

-- The first `n` words of a list, then the others.
abbrev pub split_at : ℕ → Header → Header × Header
split_at zero h = ([], h)
split_at (suc n) [] = ([], [])
split_at (suc n) (w ∷ h) = let (a, b) = split_at n h in (w ∷ a, b)

-- The scan of the first `n` words succeeds exactly when they are `n` zeros.
pub scan_zero_iff :
    (n : ℕ) (h : Header)
    → n ≤ length h
    → (scan_zero n 0 h ≡ success) ↔ ((split_at n h).0 ≡ replicate n 0)
unfolding scan_zero
scan_zero_iff zero h p = ((λ _. refl), λ _. refl)
scan_zero_iff (suc n) [] p = absurd (omega arith)
scan_zero_iff (suc n) (w ∷ h) p =
    ground (arith, scan_zero-cons n 0 w h, scan_zero_iff n h (omega arith))

sum-zeros :
    (n : ℕ) (h : Header) → n ≤ length h → length h ≤ n → scan_zero n 0 h ≡ success → sum h ≡ 0
unfolding scan_zero
sum-zeros zero [] p q e = refl
sum-zeros zero (w ∷ h) p q e = absurd (omega arith)
sum-zeros (suc n) [] p q e = refl
sum-zeros (suc n) (w ∷ h) p q e =
    ground (arith, scan_zero-cons n 0 w h, sum-zeros n h (omega arith) (omega arith))

module _ (l : Layout) (il : IsLayout l) where
  -- `ValidateHeader` accepts a header exactly when its words sum to 0xFFFFFFFF modulo 2 ^ 32 and its
  -- image length is at most 0x40000000 words; an empty header is refused for its sum already.
  pub validate_header_iff :
      (h : Header)
      → IsHeader l h
      → (validate_header l h ≡ success)
        ↔ ((sum h % u32_mod ≡ u32_max) × (get_or h l.image_word_len 0 ≤ maximum_image_word_len))
  unfolding validate_header is_empty_header
  validate_header_iff h ih = ground (
    arith,
    validate_checksum_iff l il h ih,
    sum-zeros l.word_count h (omega (arith, ih.size)) (omega (arith, ih.size)),
  )
