-- ===== src/Machine/Laws.antt =====
-- Postconditions of the world that a run leaves, by the shape of the program.
use software_prototypes.Base.{Bool, true, false, ◌≡◌, refl}
use software_prototypes.Machine.Defs.{
  Env, World, Outcome, ok, stop, hang, fault, is_settled, Act, ◌>>=◌, when,
}

module _ {C G : Type 0} (P : World C G → Type 0) (e : Env C) where
  -- A sequence ends well if its first part does, and its second behind each result of the first.
  pub >>=-post :
      {A B : Type 0} (m : Act C G A) (f : A → Act C G B) (w : World C G)
      → P (m e w).1
      → ((a : A) → (m e w).0 ≡ ok a → P (f a e (m e w).1).1)
      → P ((m >>= f) e w).1
  >>=-post {A} {B} m f w p q =
      (elim (m e w).0 as (λ r. (m e w).0 ≡ r → P (rest r).1) [
        | ok a ↦ q a
        | stop ↦ λ _. p
        | hang ↦ λ _. p
        | fault ↦ λ _. p
      ])
        refl
    where
      rest : Outcome A → Outcome B × World C G
      rest r = elim r [
        | ok a ↦ f a e (m e w).1
        | stop ↦ (stop, (m e w).1)
        | hang ↦ (hang, (m e w).1)
        | fault ↦ (fault, (m e w).1)
      ]

  pub when-post :
      (b : Bool) (m : Act C G (Unit {0})) (w : World C G)
      → P w
      → (b ≡ true → P (m e w).1)
      → P (when b m e w).1
  when-post true m w p q = q refl
  when-post false m w p q = p

-- A sequence returns or hands over if its first part does, and its second behind each result of the
-- first.
pub >>=-settled :
    {C G A B : Type 0} (e : Env C) (m : Act C G A) (f : A → Act C G B) (w : World C G)
    → is_settled (m e w).0 ≡ true
    → ((a : A) → is_settled (f a e (m e w).1).0 ≡ true)
    → is_settled ((m >>= f) e w).0 ≡ true
>>=-settled {C} {G} {A} {B} e m f w p q =
    (elim (m e w).0 as (λ r. is_settled r ≡ true → is_settled (rest r).0 ≡ true) [
      | ok a ↦ λ _. q a
      | stop ↦ λ _. refl
      | hang ↦ λ n. cc
      | fault ↦ λ n. cc
    ])
      p
  where
    rest : Outcome A → Outcome B × World C G
    rest r = elim r [
      | ok a ↦ f a e (m e w).1
      | stop ↦ (stop, (m e w).1)
      | hang ↦ (hang, (m e w).1)
      | fault ↦ (fault, (m e w).1)
    ]
