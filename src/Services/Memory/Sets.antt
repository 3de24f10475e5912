-- ===== src/Services/Memory/Sets.antt =====
-- A sorted set as the scores of the members below a bound.
use ai_distributed_job_platf.Prelude.{
  ℕ, zero, suc, ◌≤◌, ◌<◌, ◌≡◌, refl, ap, subst, sym, ◌∙◌, ◌⊎◌, inl, inr, ==_iff, Bool, true, false,
  List, [], ◌∷◌, Option, none, some, max, ltb, ◌==◌, includes, IsDistinct, if◌then◌else◌,
  Bool-cases, arith,
}
use ai_distributed_job_platf.Services.Redis.{SortedSets, is_member, is_due}

pub record Scores : Type 0 where
  pub size : ℕ
  pub at : ℕ → Option ℕ

abbrev pub score : ℕ → Scores → Option ℕ
score m z = if ltb m z.size then z.at m else none

abbrev pub add : ℕ → ℕ → Scores → Scores
add value m z = record {
  size = max z.size (suc m);
  at = λ n. if m == n then some value else score n z;
}

abbrev pub remove : ℕ → Scores → Bool × Scores
remove m z = (is_member (score m z), record z { at = λ n. if m == n then none else z.at n })

abbrev pub range_below : ℕ → ℕ → Scores → List ℕ
range_below zero limit z = []
range_below (suc k) limit z =
    let rest = range_below k limit z in if is_due limit (score k z) then k ∷ rest else rest

abbrev pub lower : ℕ → Option ℕ → Option (ℕ × ℕ) → Option (ℕ × ℕ)
lower k none best = best
lower k (some v) none = some (k, v)
lower k (some v) (some (m, t)) = if ltb v t then some (k, v) else some (m, t)

abbrev pub least_below : ℕ → Scores → Option (ℕ × ℕ)
least_below zero z = none
least_below (suc k) z = lower k (score k z) (least_below k z)

abbrev pub pop_of : Option (ℕ × ℕ) → Scores → Option (ℕ × ℕ) × Scores
pop_of none z = (none, z)
pop_of (some (m, v)) z = (some (m, v), (remove m z).1)

range_same :
    (m k limit : ℕ) (z : Scores)
    → (m == k) ≡ true
    → is_due limit (score m z) ≡ is_due limit (score k z)
range_same m k limit z e = ap (λ j. is_due limit (score j z)) ((==_iff m k).0 e)

score_same : (m k : ℕ) (z : Scores) → (m == k) ≡ true → score m z ≡ score k z
score_same m k z e = ap (λ j. score j z) ((==_iff m k).0 e)

range_bound :
    (k limit m : ℕ) (z : Scores)
    → includes m (range_below k limit z) ≡ (if ltb m k then is_due limit (score m z) else false)
unfolding includes
range_bound zero limit m z = ground arith
range_bound (suc k) limit m z = ground (arith, range_bound k limit m z, range_same m k limit z)

pub range-IsDistinct : (k limit : ℕ) (z : Scores) → IsDistinct (range_below k limit z)
range-IsDistinct zero limit z = tt
range-IsDistinct (suc k) limit z =
    ground (arith, range-IsDistinct k limit z, range_bound k limit k z)

least_none : (k m : ℕ) (z : Scores) → least_below k z ≡ none → m < k → score m z ≡ none
least_none zero m z h l = absurd (omega arith)
least_none (suc k) m z h l = ground (arith, least_none k m z, score_same m k z)

least_some : (k m v : ℕ) (z : Scores) → least_below k z ≡ some (m, v) → score m z ≡ some v
least_some zero m v z h = cc
least_some (suc k) m v z h = ground (arith, least_some k m v z, score_same m k z)

-- The least entry exists, and is at most `t`.
abbrev IsAtMost : ℕ → Option (ℕ × ℕ) → Type 0
IsAtMost t none = ⊥
IsAtMost t (some (m, v)) = v ≤ t

lower-IsAtMost :
    (k t : ℕ) (o : Option ℕ) (best : Option (ℕ × ℕ))
    → (o ≡ some t) ⊎ IsAtMost t best
    → IsAtMost t (lower k o best)
lower-IsAtMost k t none best h = ground arith
lower-IsAtMost k t (some v) none h = ground arith
lower-IsAtMost k t (some v) (some (m, u)) h = ground arith

least_below-IsAtMost :
    (k n t : ℕ) (z : Scores) → n < k → score n z ≡ some t → IsAtMost t (least_below k z)
least_below-IsAtMost zero n t z l e = absurd (omega arith)
least_below-IsAtMost (suc k) n t z l e = elim (Bool-cases (n == k)) [
  | inl same ↦
      lower-IsAtMost k t (score k z) (least_below k z) (inl (sym (score_same n k z same) ∙ e))
  | inr other ↦
      lower-IsAtMost k t (score k z) (least_below k z)
        (inr (least_below-IsAtMost k n t z (ground arith) e))
]

pub score-add :
    (v m n : ℕ) (z : Scores) → score n (add v m z) ≡ (if m == n then some v else score n z)
score-add v m n z = ground arith

pub score-remove :
    (m n : ℕ) (z : Scores) → score n (remove m z).1 ≡ (if m == n then none else score n z)
score-remove m n z = ground arith

pub range_lem :
    (limit m : ℕ) (z : Scores) → includes m (range_below z.size limit z) ≡ is_due limit (score m z)
range_lem limit m z = ground (arith, range_bound z.size limit m z)

abbrev pub pop : Scores → Option (ℕ × ℕ) × Scores
pop z = pop_of (least_below z.size z) z

pop_of_first : (o : Option (ℕ × ℕ)) (z : Scores) (r : Option (ℕ × ℕ)) → (pop_of o z).0 ≡ r → o ≡ r
pop_of_first none z r h = h
pop_of_first (some e) z r h = h

pub pop-none : (z : Scores) (m : ℕ) → (pop z).0 ≡ none → score m z ≡ none
pop-none z m h =
    ground (arith, least_none z.size m z (pop_of_first (least_below z.size z) z none h))

pub pop_member : (z : Scores) (m v : ℕ) → (pop z).0 ≡ some (m, v) → score m z ≡ some v
pop_member z m v h = least_some z.size m v z (pop_of_first (least_below z.size z) z (some (m, v)) h)

pub pop_least : (z : Scores) (m v n t : ℕ) → (pop z).0 ≡ some (m, v) → score n z ≡ some t → v ≤ t
pop_least z m v n t h e =
    subst (IsAtMost t) (pop_of_first (least_below z.size z) z (some (m, v)) h)
      (least_below-IsAtMost z.size n t z (ground arith) e)

pub score-pop :
    (z : Scores) (m v n : ℕ)
    → (pop z).0 ≡ some (m, v)
    → score n (pop z).1 ≡ (if m == n then none else score n z)
score-pop z m v n h =
    rw (pop_of_first (least_below z.size z) z (some (m, v)) h) (score-remove m n z)

pub score-pop-none : (z : Scores) (n : ℕ) → (pop z).0 ≡ none → score n (pop z).1 ≡ none
score-pop-none z n h = rw (pop_of_first (least_below z.size z) z none h) (pop-none z n h)

abbrev pub memory_sets : SortedSets
memory_sets = record {
  ZSet = Scores;
  zscore = score;
  zadd = add;
  zrem = remove;
  zrangebyscore = λ limit z. range_below z.size limit z;
  bzpopmin = pop;
  zscore-zadd = score-add;
  zrem_removed = λ m z. refl;
  zscore-zrem = score-remove;
  includes-zrangebyscore = range_lem;
  zrangebyscore-IsDistinct = λ limit z. range-IsDistinct z.size limit z;
  bzpopmin_empty = pop-none;
  bzpopmin_member = pop_member;
  bzpopmin_least = pop_least;
  zscore-bzpopmin = score-pop;
  zscore-bzpopmin_empty = score-pop-none;
}
