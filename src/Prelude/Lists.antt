-- ===== src/Prelude/Lists.antt =====
-- Lists measured by native numbers, and membership as the Boolean test that the code makes.
use Prim.Native.Nat.{ℕ, suc}
use mathlib.Core.Path.{◌≡◌}
use mathlib.Core.Bool.{Bool, false, ◌||◌}
use mathlib.Core.List.{List, [], ◌∷◌}
use ai_distributed_job_platf.Prelude.Tests.{◌==◌}

module _ {ℓ} {A : Type ℓ} where
  abbrev pub length : List A → ℕ
  length [] = 0
  length (x ∷ xs) = suc (length xs)

  -- `Array.prototype.some`.
  unfoldable pub any : (A → Bool) → List A → Bool
  any p [] = false
  any p (x ∷ xs) = p x || any p xs

  abbrev pub All {κ} : (A → Type κ) → List A → Type κ
  All P [] = Unit
  All P (x ∷ xs) = P x × All P xs

-- The keys of a list of pairs.
abbrev pub keys : {A : Type 0} → List (ℕ × A) → List ℕ
keys [] = []
keys ((n, x) ∷ rest) = n ∷ keys rest

-- Whether a number is in a list.
unfoldable pub includes : ℕ → List ℕ → Bool
includes n [] = false
includes n (x ∷ xs) = n == x || includes n xs

-- No number is in the list twice.
abbrev pub IsDistinct : List ℕ → Type 0
IsDistinct [] = Unit {0}
IsDistinct (x ∷ xs) = (includes x xs ≡ false) × IsDistinct xs
