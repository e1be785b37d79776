-- ===== src/Fsbl/Image/Digest.antt =====
-- `ValidateParition` of zynq-7000-tips-tricks/fsbl/image_mover.c: which partitions pass.
use software_prototypes.Base.{
  ℕ, zero, suc, ◌+◌, ◌≤◌, ◌<◌, ◌≡◌, ◌↔◌, refl, List, ◌∷◌, arith, get_or, if◌then◌else◌, ==_iff,
}
use software_prototypes.Machine.{Env, World, ok, success}
use software_prototypes.Fsbl.System.{
  Config, Globals, Call, restart_wdt, move_image, checksum_var, md5,
}
use software_prototypes.Fsbl.Image.{compare_bytes, validate_partition}
use native.Mathlib.Decide.{ℕ_discrete}

-- The bytes `i` to `i + n - 1` of the two buffers are equal.
abbrev pub SameBytes : (n i : ℕ) → List ℕ → List ℕ → Type 0
SameBytes n i xs ys = (k : ℕ) → i ≤ k → k < i + n → get_or xs k 0 ≡ get_or ys k 0

compare_bytes-SameBytes :
    (n i : ℕ) (xs ys : List ℕ) → compare_bytes n i xs ys ≡ success → SameBytes n i xs ys
unfolding compare_bytes
compare_bytes-SameBytes zero i xs ys s k p q = absurd (omega arith)
compare_bytes-SameBytes (suc n) i xs ys s k p q = elim (ℕ_discrete i k) [
  | yes e ↦ rw (← e) (ground arith)
  | no ne ↦ compare_bytes-SameBytes n (suc i) xs ys (ground arith) k (omega arith) (omega arith)
]

SameBytes-compare_bytes :
    (n i : ℕ) (xs ys : List ℕ) → SameBytes n i xs ys → compare_bytes n i xs ys ≡ success
unfolding compare_bytes
SameBytes-compare_bytes zero i xs ys h = refl
SameBytes-compare_bytes (suc n) i xs ys h =
    rw ((==_iff _ _).1 (h i (omega arith) (omega arith)))
      (SameBytes-compare_bytes n (suc i) xs ys λ k p q. h k (omega arith) (omega arith))

pub compare_bytes_iff :
    (n i : ℕ) (xs ys : List ℕ) → (compare_bytes n i xs ys ≡ success) ↔ SameBytes n i xs ys
compare_bytes_iff n i xs ys = (compare_bytes-SameBytes n i xs ys, SameBytes-compare_bytes n i xs ys)

module _ (c : Config) (e : Env Call) (start length offset : ℕ) (w : World Call Globals) where
  abbrev log_before : List Call
  log_before = if c.has_watchdog then restart_wdt ∷ w.log else w.log

  -- The call that reads the stored checksum, and the one that computes it.
  abbrev read : Call
  read = move_image offset checksum_var 16

  abbrev stored : List ℕ
  stored = e.words log_before read

  abbrev computed : List ℕ
  computed = e.words (read ∷ log_before) (md5 start length)

  validate_partition-compare :
      ((validate_partition c start length offset e w).0 ≡ ok success)
      ↔ ((e.status log_before read ≡ success) × (compare_bytes 16 0 stored computed ≡ success))
  unfolding validate_partition
  validate_partition-compare = ground arith

  -- A partition passes exactly when its checksum could be read from the boot device and the 16 bytes
  -- read are those of the digest of its data.
  pub validate_partition_iff :
      ((validate_partition c start length offset e w).0 ≡ ok success)
      ↔ ((e.status log_before read ≡ success) × SameBytes 16 0 stored computed)
  validate_partition_iff =
      let (to, from) = validate_partition-compare in
      let (same, compare) = compare_bytes_iff 16 0 stored computed in
      (λ r. ((to r).0, same (to r).1), λ p. from (p.0, compare p.1))
