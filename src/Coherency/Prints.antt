-- ===== src/Coherency/Prints.antt =====
-- The bytes that the cache coherency demos print, and programs that print under settings they keep.
use software_prototypes.Base.{ℕ, ◌≡◌, ap, ◌∙◌, List, [], ◌∷◌, arith}
use software_prototypes.Machine.{Env, World, ok, ◌>>◌}
use software_prototypes.Copy.{Memory}
use software_prototypes.Coherency.{Board, BoardCall, readback}
use software_prototypes.Coherency.RpuCopies.{Copied, Apart}

-- The bytes that were printed, newest first.
unfoldable pub readbacks : List BoardCall → List ℕ
readbacks [] = []
readbacks (readback byte ∷ l) = byte ∷ readbacks l
readbacks (c ∷ l) = readbacks l

-- A transfer of a buffer that lies apart from its destination is a copy.
unfoldable pub Copies : ((src dest bytes : ℕ) → Memory → Memory) → Type 0
Copies f =
    (src dest bytes : ℕ) (m : Memory)
    → Apart src dest bytes
    → Copied src dest bytes m (f src dest bytes m)

-- A program that is run under some settings keeps them, returns, and so changes the bytes that were
-- printed.
pub record Prints (e : Env BoardCall) (before after : List BoardCall → Type 0)
    (p : Board (Unit {0})) (f : List ℕ → List ℕ) : Type 0 where
  pub run :
      (w : World BoardCall Memory)
      → before w.log
      → ((p e w).0 ≡ ok tt) × (readbacks (p e w).1.log ≡ f (readbacks w.log)) × after (p e w).1.log

pub bind-Prints :
    {e : Env BoardCall}
    → {before between after : List BoardCall → Type 0} → {p q : Board (Unit {0})}
    → {f g : List ℕ → List ℕ} → Prints e before between p f
    → Prints e between after q g
    → Prints e before after (p >> q) (λ l. g (f l))
bind-Prints {e} {before} {between} {after} {p} {q} {f} {g} x y = record { run = both }
  where
    same : (w : World BoardCall Memory) → (p e w).0 ≡ ok tt → (p >> q) e w ≡ q e (p e w).1
    same w r = ground (arith, r)

    both :
        (w : World BoardCall Memory)
        → before w.log
        → (((p >> q) e w).0 ≡ ok tt)
          × (readbacks ((p >> q) e w).1.log ≡ g (f (readbacks w.log)))
          × after ((p >> q) e w).1.log
    both w h =
        let (r, s, k) = x.run w h in
        let (r', s', k') = y.run (p e w).1 k in rw (same w r) (r', s' ∙ ap g s, k')
