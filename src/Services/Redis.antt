-- ===== src/Services/Redis.antt =====
-- A Redis sorted set whose members are job ids, as far as the code uses it.
use ai_distributed_job_platf.Prelude.{
  ℕ, ◌≤◌, ◌≡◌, Bool, List, Option, none, some, ◌==◌, leb, includes, IsDistinct, if◌then◌else◌,
}

abbrev pub is_member : Option ℕ → Bool
is_member none = Bool.false
is_member (some s) = Bool.true

-- Whether a member with this score is in the range `-inf limit`.
abbrev pub is_due : ℕ → Option ℕ → Bool
is_due limit none = Bool.false
is_due limit (some s) = leb s limit

pub record SortedSets : Type 1 where
  pub ZSet : Type 0
  -- `ZSCORE`: what is observed of a set.
  pub zscore : ℕ → ZSet → Option ℕ
  pub zadd : ℕ → ℕ → ZSet → ZSet
  -- Whether a member was removed, and the set left.
  pub zrem : ℕ → ZSet → Bool × ZSet
  -- `ZRANGEBYSCORE key -inf max`.
  pub zrangebyscore : ℕ → ZSet → List ℕ
  -- `BZPOPMIN`: `none` is the answer when the wait runs out on an empty set.
  pub bzpopmin : ZSet → Option (ℕ × ℕ) × ZSet
  pub zscore-zadd :
      (score m n : ℕ) (z : ZSet)
      → zscore n (zadd score m z) ≡ (if m == n then some score else zscore n z)
  pub zrem_removed : (m : ℕ) (z : ZSet) → (zrem m z).0 ≡ is_member (zscore m z)
  pub zscore-zrem :
      (m n : ℕ) (z : ZSet) → zscore n (zrem m z).1 ≡ (if m == n then none else zscore n z)
  pub includes-zrangebyscore :
      (limit m : ℕ) (z : ZSet) → includes m (zrangebyscore limit z) ≡ is_due limit (zscore m z)
  pub zrangebyscore-IsDistinct : (limit : ℕ) (z : ZSet) → IsDistinct (zrangebyscore limit z)
  pub bzpopmin_empty : (z : ZSet) (m : ℕ) → (bzpopmin z).0 ≡ none → zscore m z ≡ none
  pub bzpopmin_member : (z : ZSet) (m s : ℕ) → (bzpopmin z).0 ≡ some (m, s) → zscore m z ≡ some s
  pub bzpopmin_least :
      (z : ZSet) (m s n t : ℕ) → (bzpopmin z).0 ≡ some (m, s) → zscore n z ≡ some t → s ≤ t
  pub zscore-bzpopmin :
      (z : ZSet) (m s n : ℕ)
      → (bzpopmin z).0 ≡ some (m, s)
      → zscore n (bzpopmin z).1 ≡ (if m == n then none else zscore n z)
  pub zscore-bzpopmin_empty :
      (z : ZSet) (n : ℕ) → (bzpopmin z).0 ≡ none → zscore n (bzpopmin z).1 ≡ none
