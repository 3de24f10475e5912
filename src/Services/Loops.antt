-- ===== src/Services/Loops.antt =====
-- What a loop over a list keeps, also if one of its rounds throws.
use ai_distributed_job_platf.Prelude.{List, [], ◌∷◌, Outcome, ok, threw, All}
use ai_distributed_job_platf.Services.{Services}
use ai_distributed_job_platf.Services.World.{World, M, then_with, for_each}

module _ ⦃s : Services⦄ where
  pub then_with-keeps :
      (P : World → Type 0) {A B : Type 0} (k : A → M B) (r : Outcome A) (w : World)
      → ((a : A) (v : World) → P v → P (k a v).1)
      → P w
      → P (then_with k r w).1
  then_with-keeps P k (ok a) w step h = step a w h
  then_with-keeps P k (threw e) w step h = h

  pub for_each-keeps :
      (P : World → Type 0) {A : Type 0} (Q : A → Type 0) (body : A → M (Unit {0}))
      → ((a : A) (v : World) → Q a → P v → P (body a v).1)
      → (xs : List A) (w : World) → All Q xs
      → P w
      → P (for_each body xs w).1
  unfolding for_each
  for_each-keeps P Q body step [] w q h = h
  for_each-keeps P Q body step (x ∷ xs) w q h =
      then_with-keeps P (λ _. for_each body xs) (body x w).0 (body x w).1
        (λ _ v k. for_each-keeps P Q body step xs v q.1 k) (step x w q.0 h)
