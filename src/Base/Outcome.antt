-- ===== src/Base/Outcome.antt =====
-- The outcome of C code that reads and writes memory and loops: a result, a read or write outside
-- an object, or more rounds than the fuel allows.
use mathlib.Core.Path.{◌≡◌, refl}
use mathlib.Core.Logic.{◌⊎◌, inl, inr}

pub data Run {ℓ} (A : Type ℓ) : Type ℓ where
  done : A → Run A
  fault : Run A
  out_of_fuel : Run A

infixl 5 ◌>>=◌
abbrev pub ◌>>=◌ {ℓ κ} : {A : Type ℓ} {B : Type κ} → Run A → (A → Run B) → Run B
done a >>= f = f a
fault >>= f = fault
out_of_fuel >>= f = out_of_fuel

pub Run-cases {ℓ} :
    {A : Type ℓ} (r : Run A) → (r ≡ fault) ⊎ (r ≡ out_of_fuel) ⊎ ((a : A) × (r ≡ done a))
Run-cases (done a) = inr (inr (a, refl))
Run-cases fault = inl refl
Run-cases out_of_fuel = inr (inl refl)
