-- ===== src/Base/Outcome.antt =====
-- The outcome of code that may go wrong: `fault` is undefined behaviour or a failed assertion, and
-- `out_of_fuel` a loop that was given too few rounds.
use mathlib.Core.Path.{◌≡◌, refl}
use mathlib.Core.Logic.{◌⊎◌, inl, inr}

pub data Outcome {ℓ} (A : Type ℓ) : Type ℓ where
  ok : A → Outcome A
  fault : Outcome A
  out_of_fuel : Outcome A

module _ {ℓ κ} {A : Type ℓ} {B : Type κ} where
  infixl 5 ◌>>=◌
  -- The second part runs on the result of the first.
  abbrev pub ◌>>=◌ : Outcome A → (A → Outcome B) → Outcome B
  out_of_fuel >>= k = out_of_fuel
  fault >>= k = fault
  ok x >>= k = k x

  -- The parts of a successful sequence.
  pub >>=-eq-ok :
      (o : Outcome A) (k : A → Outcome B) {y : B}
      → (o >>= k) ≡ ok y
      → (x : A) × (o ≡ ok x) × (k x ≡ ok y)
  >>=-eq-ok out_of_fuel k e = cc
  >>=-eq-ok fault k e = cc
  >>=-eq-ok (ok x) k e = (x, refl, e)

-- A successful outcome, or one of the two others.
pub Outcome-cases {ℓ} :
    {A : Type ℓ} (o : Outcome A) → ((a : A) × (o ≡ ok a)) ⊎ ((o ≡ fault) ⊎ (o ≡ out_of_fuel))
Outcome-cases (ok a) = inl (a, refl)
Outcome-cases fault = inr (inl refl)
Outcome-cases out_of_fuel = inr (inr refl)

pub ok-injective {ℓ} : {A : Type ℓ} (a b : A) → ok a ≡ ok b → a ≡ b
ok-injective a b e = cc
