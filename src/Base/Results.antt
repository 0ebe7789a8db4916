-- ===== src/Base/Results.antt =====
-- Python exceptions as values: a result type with its `do` notation.
use mathlib.Core.Path.{◌≡◌, refl}
use mathlib.Core.Logic.{◌⊎◌, inl, inr}
use mathlib.Core.Bool.{Bool, true, false}

-- The exception classes that the modelled code raises or lets through.
pub data Error : Type 0 where
  index_error struct_error value_error overflow_error : Error
  incomplete_read_error connection_error buffer_error timeout_error : Error
  -- No Python exception: a loop of the model ran out of fuel.
  stuck : Error

-- What a call ends with: an exception or a value.
pub data Result {ℓ} (V : Type ℓ) : Type ℓ where
  err : (raised : Error) → Result V
  ok : (value : V) → Result V

-- The rest of a block after a call: an exception leaves it.
infixl 5 ◌>>=◌ ◌>>◌
abbrev pub ◌>>=◌ {κ ℓ} : {V : Type κ} {W : Type ℓ} → Result V → (V → Result W) → Result W
err raised >>= rest = err raised
ok value >>= rest = rest value

-- `if not test: raise e`
abbrev pub guard : Bool → Error → Result (Unit {0})
guard false raised = err raised
guard true raised = ok tt

abbrev pub ◌>>◌ {κ} : {W : Type κ} → Result (Unit {0}) → Result W → Result W
first >> rest = first >>= λ done. rest

pub Result-cases {ℓ} :
    {A : Type ℓ} (r : Result A) → ((a : A) × (r ≡ ok a)) ⊎ ((e : Error) × (r ≡ err e))
Result-cases (ok a) = inl (a, refl)
Result-cases (err e) = inr (e, refl)
