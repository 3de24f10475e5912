-- ===== src/Prelude/Outcomes.antt =====
-- JavaScript errors as values.
use Prim.Native.Nat.{ℕ}
use Prim.Native.String.{String}
use mathlib.Core.Bool.{Bool}
use mathlib.Core.Option.{Option, none}

-- What the code reads of an `Error`: `none` in `retryable` or `status` is a property that is not
-- set. `AIError` (ai/anthropicClient.js) sets both.
pub record Error : Type 0 where
  pub message : String
  pub retryable : Option Bool
  pub status : Option ℕ

-- `new Error(message)`.
abbrev pub plain_error : String → Error
plain_error message = record { message = message; retryable = none; status = none }

-- A settled promise, or a call that returned or threw.
pub data Outcome {ℓ} (A : Type ℓ) : Type ℓ where
  ok : A → Outcome A
  threw : Error → Outcome A
