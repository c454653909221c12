-- ===== src/Base/Result.antt =====
-- A computation that may throw an error of type `E`.
use mathlib.Core.Path.{◌≡◌, refl}
use mathlib.Core.Bool.{Bool, true, false}

pub data Result {ℓ} (E : Type 0) (A : Type ℓ) : Type ℓ where
  err : E → Result E A
  ok : A → Result E A

-- What follows `await`: it runs unless the attempt threw.
module _ {κ} {E : Type 0} {B : Type κ} where
  infixl 5 ◌>>=◌ ◌>>◌
  abbrev pub ◌>>=◌ {ℓ} : {A : Type ℓ} → Result E A → (A → Result E B) → Result E B
  attempt >>= next = elim attempt [ err problem ↦ err problem | ok value ↦ next value ]

  abbrev pub ◌>>◌ : Result E (Unit {0}) → Result E B → Result E B
  check >> rest = elim check [ err problem ↦ err problem | ok _ ↦ rest ]

  pub >>=-eq-ok {ℓ} :
      {A : Type ℓ} {b : B} (attempt : Result E A) (next : A → Result E B)
      → (attempt >>= next) ≡ ok b
      → (value : A) × (attempt ≡ ok value) × (next value ≡ ok b)
  >>=-eq-ok (err problem) next thrown = cc
  >>=-eq-ok (ok value) next answered = (value, refl, answered)

-- `if (b) throw e`
abbrev pub throw_if : {E : Type 0} → Bool → E → Result E (Unit {0})
throw_if false e = ok tt
throw_if true e = err e

pub ok-injective {ℓ} :
    {E : Type 0} {A : Type ℓ} {a b : A} → ◌≡◌ {A = Result E A} (ok a) (ok b) → a ≡ b
ok-injective h = cc
