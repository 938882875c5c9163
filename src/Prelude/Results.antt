-- ===== src/Prelude/Results.antt =====
-- Go's pair of a value and an error, where the value is not used when there is an error.
use mathlib.Core.Path.{◌≡◌, refl}

pub data Result {ℓ} (Error Value : Type ℓ) : Type ℓ where
  err : Error → Result Error Value
  ok : Value → Result Error Value

module _ {ℓ} {Error A : Type ℓ} where
  infixl 5 ◌>>=◌
  abbrev pub ◌>>=◌ : {B : Type ℓ} → Result Error A → (A → Result Error B) → Result Error B
  err failure >>= next = err failure
  ok value >>= next = next value

  -- A chain that succeeds has a first step that succeeds.
  pub >>=-eq-ok :
      {B : Type ℓ} (first : Result Error A) (next : A → Result Error B) {result : B}
      → (first >>= next) ≡ ok result
      → (value : A) × (first ≡ ok value) × (next value ≡ ok result)
  >>=-eq-ok (err failure) next reached = cc
  >>=-eq-ok (ok value) next reached = (value, refl, reached)

  pub ok_injective : {a b : A} → ◌≡◌ {A = Result Error A} (ok a) (ok b) → a ≡ b
  ok_injective same = cc

  -- A computation that does not fail.
  abbrev pub Succeeds : Result Error A → Type ℓ
  Succeeds r = (value : A) × (r ≡ ok value)

  pub >>=-Succeeds :
      {B : Type ℓ} (first : Result Error A) (next : A → Result Error B)
      → Succeeds first
      → ((value : A) → (result : B) × (next value ≡ ok result))
      → (result : B) × ((first >>= next) ≡ ok result)
  >>=-Succeeds (ok value) next goes then = then value
  >>=-Succeeds (err failure) next goes then = cc
