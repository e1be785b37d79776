-- ===== src/Copy.antt =====
-- Loops that copy items of memory one after the other: the words of zynq-7000-tips-tricks/ssbl, and the
-- bytes of the processors R5 in zynqmp-cache-coherency and versal-cache-coherency.
use software_prototypes.Base.{
  ℕ, suc, zero, ◌≡◌, ◌⊎◌, inl, inr, refl, ap, ◌∙◌, Bool-cases, ◌&&◌, ◌==◌, ltb, leb, ◌+◌, ◌-◌, ◌*◌,
  ◌<◌, ◌≤◌, if◌then◌else◌, arith,
}

-- Bytes by their address.
abbrev pub Memory : Type 0
Memory = ℕ → ℕ

unfoldable pub put : (address byte : ℕ) → Memory → Memory
put address byte m a = if a == address then byte else m a

-- One item, of this many bytes, is read and then written.
unfoldable pub move_item : (width src dest : ℕ) → Memory → Memory
move_item width src dest m a =
    if leb dest a && ltb a (dest + width) then m (src + (a - dest)) else m a

unfoldable pub copy_loop : (width left src dest : ℕ) → Memory → Memory
copy_loop width zero src dest m = m
copy_loop width (suc n) src dest m =
    copy_loop width n (src + width) (dest + width) (move_item width src dest m)

-- The bytes of so many items.
unfoldable pub span : (width left : ℕ) → ℕ
span width zero = 0
span width (suc n) = width + span width n

pub span_lem : (width n : ℕ) → span width n ≡ n * width
unfolding span
span_lem width zero = omega arith
span_lem width (suc n) = grind (arith, span_lem width n)

-- A copy leaves the bytes outside of its destination.
pub copy_loop_outside :
    (width n src dest : ℕ) (m : Memory) (a : ℕ)
    → (a < dest) ⊎ (dest + span width n ≤ a)
    → copy_loop width n src dest m a ≡ m a
unfolding copy_loop span move_item
copy_loop_outside width zero src dest m a h = refl
copy_loop_outside width (suc n) src dest m a h = ground (
  arith,
  h,
  copy_loop_outside width n (src + width) (dest + width) (move_item width src dest m) a
      (ground (arith, h)),
)

-- A copy whose destination does not begin inside its source, behind the source's first byte, gives
-- each byte of the destination that of the source as it was before.
pub copy_loop_inside :
    (width n src dest : ℕ) (m : Memory) (i : ℕ)
    → i < span width n
    → (dest ≤ src) ⊎ (src + span width n ≤ dest)
    → copy_loop width n src dest m (dest + i) ≡ m (src + i)
unfolding copy_loop span move_item
copy_loop_inside width zero src dest m i b h = absurd (omega (arith, b))
copy_loop_inside width (suc n) src dest m i b h = elim (Bool-cases (ltb i width)) [
  | inl y ↦
      let moved = move_item width src dest m in
      ground (
        arith,
        y,
        copy_loop_outside width n (src + width) (dest + width) moved (dest + i)
            (inl (ground (arith, y))),
        ap m (offset dest src i),
      )
  | inr y ↦
      let moved = move_item width src dest m in
      let j = i - width in
      let at_dest : dest + i ≡ dest + width + j = ground (arith, y) in
      let at_src : src + width + j ≡ src + i = ground (arith, y) in
      let rest =
        copy_loop_inside width n (src + width) (dest + width) moved j (ground (arith, y, b))
          (ground (arith, h)) in
      ap (copy_loop width n (src + width) (dest + width) moved) at_dest
      ∙ rest
      ∙ ap moved at_src
      ∙ ground (arith, y, h, b)
]
  where
    offset : (dest src i : ℕ) → src + (dest + i - dest) ≡ src + i
    offset dest src i = omega arith
