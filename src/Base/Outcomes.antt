-- ===== src/Base/Outcomes.antt =====
-- Results of the handlers: a value, or the exception that is thrown, by its class and code.
use Prim.Native.String.{String}
use mathlib.Core.Path.{◌≡◌, refl}
use mathlib.Core.Logic.{◌⊎◌, inl, inr}

-- The exception classes of @nestjs/common that the modelled code throws, and a plain `Error`.
pub data Exception : Type 0 where
  bad_request : String → Exception
  not_found : String → Exception
  conflict : String → Exception
  forbidden : String → Exception
  unauthorized : String → Exception
  plain_error : String → Exception

-- `error.message`.
abbrev pub message : Exception → String
message (bad_request m) = m
message (not_found m) = m
message (conflict m) = m
message (forbidden m) = m
message (unauthorized m) = m
message (plain_error m) = m

pub data Result {ℓ} (A : Type ℓ) : Type ℓ where
  ok : A → Result A
  err : Exception → Result A

pub Result-cases {ℓ} :
    {A : Type ℓ} (r : Result A) → ((a : A) × (r ≡ ok a)) ⊎ ((e : Exception) × (r ≡ err e))
Result-cases (ok a) = inl (a, refl)
Result-cases (err e) = inr (e, refl)
