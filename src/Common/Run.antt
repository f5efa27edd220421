-- ===== src/Common/Run.antt =====
-- What a piece of the code comes to: a result, or `fault`, where C++ leaves its behaviour undefined
-- (a read outside an array, or of a union's member that was not written).
use mathlib.Core.Path.{◌≡◌, refl}
use mathlib.Core.Logic.{◌⊎◌, inl, inr}

pub data Run {ℓ} (A : Type ℓ) : Type ℓ where
  fault : Run A
  ok : A → Run A

module _ {ℓ m} {A : Type ℓ} where
  -- No fault, and a result with the property `Post`.
  abbrev pub Returns : Run A → (A → Type m) → Type (ℓ ⊔ m)
  Returns run Post = (out : A) × (run ≡ ok out) × Post out

  infixl 5 ◌>>=◌
  abbrev pub ◌>>=◌ : {B : Type m} → Run A → (A → Run B) → Run B
  fault >>= next = fault
  ok out >>= next = next out

-- A result of a sequence is one of both its parts.
pub >>=-eq-ok {ℓ} :
    {A B : Type ℓ} (run : Run A) (next : A → Run B) {b : B}
    → (run >>= next) ≡ ok b
    → (a : A) × (run ≡ ok a) × (next a ≡ ok b)
>>=-eq-ok fault next h = absurd (cc)
>>=-eq-ok (ok a) next h = (a, refl, h)

pub ok_inj {ℓ} : {A : Type ℓ} {a b : A} → ok a ≡ ok b → a ≡ b
ok_inj h = cc

pub Run-cases {ℓ} : {A : Type ℓ} (run : Run A) → (run ≡ fault) ⊎ ((a : A) × (run ≡ ok a))
Run-cases fault = inl refl
Run-cases (ok a) = inr (a, refl)
