-- ===== src/Prelude/Errors.antt =====
-- What a fallible Go function returns: a value, or an error.
use mathlib.Core.Path.{◌≡◌, refl}
use mathlib.Core.Logic.{◌⊎◌, inl, inr}
use mathlib.Core.Bool.{Bool, true, false}

pub data Outcome {κ ℓ} (E : Type κ) (A : Type ℓ) : Type (κ ⊔ ℓ) where
  ok : A → Outcome E A
  err : E → Outcome E A

module _ {κ ℓ} {E : Type κ} {A : Type ℓ} where
  abbrev pub is_ok : Outcome E A → Bool
  is_ok (ok _) = true
  is_ok (err _) = false

  pub Outcome-cases : (o : Outcome E A) → ((a : A) × (o ≡ ok a)) ⊎ ((e : E) × (o ≡ err e))
  Outcome-cases (ok a) = inl (a, refl)
  Outcome-cases (err e) = inr (e, refl)

module _ {κ ℓ μ} {E : Type κ} {A : Type ℓ} {B : Type μ} where
  infixl 5 ◌>>=◌
  abbrev pub ◌>>=◌ : Outcome E A → (A → Outcome E B) → Outcome E B
  err problem >>= next = err problem
  ok value >>= next = next value

  pub >>=-eq-ok :
      (first : Outcome E A) (next : A → Outcome E B) {final : B}
      → (first >>= next) ≡ ok final
      → (a : A) × (first ≡ ok a) × (next a ≡ ok final)
  >>=-eq-ok (err problem) next done = cc
  >>=-eq-ok (ok value) next done = (value, refl, done)

module _ {κ μ} {E : Type κ} {B : Type μ} where
  infixl 5 ◌>>◌
  abbrev pub ◌>>◌ : Outcome E (Unit {0}) → Outcome E B → Outcome E B
  check >> rest = check >>= (λ _. rest)

-- An early return with an error when the test holds.
abbrev pub refuse_if {κ} : {E : Type κ} → Bool → E → Outcome E (Unit {0})
refuse_if false problem = ok tt
refuse_if true problem = err problem
