-- ===== src/Word.antt =====
-- 32-bit words as native numbers: `u32` arithmetic of the C sources, and the complement by xor.
use Prim.Native.Nat.{bit_xor, bit_xor-bitwise, digits, differ}
use software_prototypes.Base.{
  ℕ, zero, suc, ◌+◌, ◌-◌, ◌*◌, ◌/◌, ◌%◌, ◌^◌, ◌≤◌, ◌<◌, ◌≡◌, refl, arith,
}

abbrev pub u32_mod : ℕ
u32_mod = 2 ^ 32

-- 0xFFFFFFFF
abbrev pub u32_max : ℕ
u32_max = 2 ^ 32 - 1

-- `a + b` on `u32`
abbrev pub add32 : ℕ → ℕ → ℕ
add32 a b = (a + b) % u32_mod

-- `a - b` on `u32`
abbrev pub sub32 : ℕ → ℕ → ℕ
sub32 a b = (a + u32_mod - b) % u32_mod

-- `a << WORD_LENGTH_SHIFT` on `u32`, a count of words in bytes
abbrev pub shl32 : ℕ → ℕ → ℕ
shl32 a k = (a * 2 ^ k) % u32_mod

-- The digit recursion that `bit_xor` stands for.
abbrev xor_digits : ℕ → ℕ → ℕ → ℕ
xor_digits n a b = digits (λ b. b) differ n a b

xor_digits_fuel : (n m a b : ℕ) → a ≤ n → a ≤ m → xor_digits n a b ≡ xor_digits m a b
xor_digits_fuel zero zero a b p q = refl
xor_digits_fuel zero (suc m) zero b p q = refl
xor_digits_fuel zero (suc m) (suc a) b p q = absurd (omega arith)
xor_digits_fuel (suc n) zero zero b p q = refl
xor_digits_fuel (suc n) zero (suc a) b p q = absurd (omega arith)
xor_digits_fuel (suc n) (suc m) zero b p q = refl
xor_digits_fuel (suc n) (suc m) (suc a) b p q =
    omega (arith, xor_digits_fuel n m (suc a / 2) (b / 2) (omega arith) (omega arith))

zero-bit_xor : (b : ℕ) → bit_xor 0 b ≡ b
zero-bit_xor b = bit_xor-bitwise 0 b

bit_xor_step : (a b : ℕ) → bit_xor a b ≡ bit_xor (a / 2) (b / 2) * 2 + differ (a % 2) (b % 2)
bit_xor_step zero b = omega (arith, zero-bit_xor b, zero-bit_xor (b / 2))
bit_xor_step (suc a) b = omega (
  arith,
  bit_xor-bitwise (suc a) b,
  bit_xor-bitwise (suc a / 2) (b / 2),
  xor_digits_fuel a (suc a / 2) (suc a / 2) (b / 2) (omega arith) (omega arith),
)

-- `k` ones.
abbrev ones : ℕ → ℕ
ones zero = 0
ones (suc k) = ones k * 2 + 1

differ-one : (d : ℕ) → d < 2 → differ d 1 + d ≡ 1
differ-one zero h = refl
differ-one (suc zero) h = refl
differ-one (suc (suc d)) h = absurd (omega arith)

bit_xor-ones : (k x : ℕ) → x ≤ ones k → bit_xor x (ones k) + x ≡ ones k
bit_xor-ones zero zero h = refl
bit_xor-ones zero (suc x) h = absurd (omega arith)
bit_xor-ones (suc k) x h =
    rw (bit_xor_step x (ones k * 2 + 1), half, odd)
      (omega (arith, bit_xor-ones k (x / 2) (omega arith), differ-one (x % 2) (omega arith)))
  where
    half : (ones k * 2 + 1) / 2 ≡ ones k
    half = omega arith

    odd : (ones k * 2 + 1) % 2 ≡ 1
    odd = omega arith

-- Inverting a 32-bit word takes it from the greatest word.
pub bit_xor-max : (x : ℕ) → x < u32_mod → bit_xor x u32_max ≡ u32_max - x
bit_xor-max x h = omega (arith, bit_xor-ones 32 x (omega arith))
