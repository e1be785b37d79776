-- ===== src/Machine/Defs.antt =====
-- Calls, logs, and the monad of the programs that make them.
use software_prototypes.Base.{
  ℕ, ◌≡◌, ◌⊎◌, inl, inr, refl, List, ◌∷◌, Bool, true, false, if◌then◌else◌,
}

-- XST_SUCCESS, and every other value of a status word.
pub data Status : Type 0 where
  success failure : Status

pub Status-cases : (s : Status) → (s ≡ success) ⊎ (s ≡ failure)
Status-cases success = inl refl
Status-cases failure = inr refl

-- What a call returns: a status, a number, and what it writes through a pointer.
pub record Env (C : Type 0) : Type 0 where
  pub status : List C → C → Status
  pub value : List C → C → ℕ
  pub words : List C → C → List ℕ

pub record World (C G : Type 0) : Type 0 where
  pub log : List C
  pub globals : G

-- How a run ends: it returns, it hands control to a function that does not return, it still waits
-- when its fuel is used up, or it reads or writes outside of an array.
pub data Outcome (A : Type 0) : Type 0 where
  ok : A → Outcome A
  stop : Outcome A
  hang : Outcome A
  fault : Outcome A

-- A run that returns or hands control over.
abbrev pub is_settled : {A : Type 0} → Outcome A → Bool
is_settled (ok a) = true
is_settled stop = true
is_settled hang = false
is_settled fault = false

abbrev pub Act : Type 0 → Type 0 → Type 0 → Type 0
Act C G A = Env C → World C G → Outcome A × World C G

module _ {C G : Type 0} where
  abbrev pub pure : {A : Type 0} → A → Act C G A
  pure a e w = (ok a, w)

  abbrev pub stopped : {A : Type 0} → Act C G A
  stopped e w = (stop, w)

  abbrev pub hung : {A : Type 0} → Act C G A
  hung e w = (hang, w)

  abbrev pub faulted : {A : Type 0} → Act C G A
  faulted e w = (fault, w)

  abbrev pub logged : C → World C G → World C G
  logged c w = record w { log = c ∷ w.log }

  -- A call of which only the status is read.
  abbrev pub call : C → Act C G Status
  call c e w = (ok (e.status w.log c), logged c w)

  abbrev pub ask : C → Act C G ℕ
  ask c e w = (ok (e.value w.log c), logged c w)

  abbrev pub tell : C → Act C G (Unit {0})
  tell c e w = (ok tt, logged c w)

  -- A call that returns a status and writes words through a pointer.
  abbrev pub fetch : C → Act C G (Status × List ℕ)
  fetch c e w = (ok (e.status w.log c, e.words w.log c), logged c w)

  abbrev pub gets : {A : Type 0} → (G → A) → Act C G A
  gets f e w = (ok (f w.globals), w)

  abbrev pub modify : (G → G) → Act C G (Unit {0})
  modify f e w = (ok tt, record w { globals = f w.globals })

infixl 5 ◌>>=◌ ◌>>◌
abbrev pub ◌>>=◌ : {C G A B : Type 0} → Act C G A → (A → Act C G B) → Act C G B
◌>>=◌ m f e w =
    let (r, w') = m e w in
    elim r [ ok a ↦ f a e w' | stop ↦ (stop, w') | hang ↦ (hang, w') | fault ↦ (fault, w') ]

abbrev pub ◌>>◌ : {C G A B : Type 0} → Act C G A → Act C G B → Act C G B
m >> k = m >>= λ _. k

-- `if (c) { m }`
abbrev pub when : {C G : Type 0} → Bool → Act C G (Unit {0}) → Act C G (Unit {0})
when c m e w = if c then m e w else (ok tt, w)
