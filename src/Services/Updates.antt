-- ===== src/Services/Updates.antt =====
-- Conditional updates of one document: what the laws of the collection say in the three cases.
use ai_distributed_job_platf.Prelude.{
  ℕ, ◌≡◌, ◌≢◌, refl, subst, ◌∙◌, Bool, true, false, Option, none, some, ◌==◌, ==_iff, ==_refl, inl,
  inr, Bool-cases, arith,
}
use ai_distributed_job_platf.Models.Job.{Job}
use ai_distributed_job_platf.Services.{Services}
use ai_distributed_job_platf.Services.Mongo.{updated, found_and_updated, at_id}

-- Whether a document is there and satisfies the filter.
abbrev pub matches_in : (Job → Bool) → Option Job → Bool
matches_in matches none = false
matches_in matches (some job) = matches job

found_hit :
    (matches : Job → Bool) (change : Job → Job) (o : Option Job)
    → matches_in matches o ≡ true
    → (found_and_updated matches change o ≡ at_id o change)
      × (at_id o (updated matches change) ≡ at_id o change)
found_hit matches change none h = cc
found_hit matches change (some job) h = ground arith

found_miss :
    (matches : Job → Bool) (change : Job → Job) (o : Option Job)
    → matches_in matches o ≡ false
    → (found_and_updated matches change o ≡ none) × (at_id o (updated matches change) ≡ o)
found_miss matches change none h = (refl, refl)
found_miss matches change (some job) h = ground arith

module _ ⦃s : Services⦄ (i : ℕ) (matches : Job → Bool) (change : Job → Job) (jobs : s.Jobs) where
  pub update-hit :
      matches_in matches (s.find_by_id i jobs) ≡ true
      → ((s.find_one_and_update i matches change jobs).0 ≡ at_id (s.find_by_id i jobs) change)
        × (s.find_by_id i (s.find_one_and_update i matches change jobs).1
            ≡ at_id (s.find_by_id i jobs) change)
  update-hit h =
      let (found, stored) = found_hit matches change (s.find_by_id i jobs) h in
      (
        s.updated_document i matches change jobs ∙ found,
        s.find_by_id-updated i i matches change jobs ∙ rw (==_refl i) stored,
      )

  pub update-other :
      (j : ℕ)
      → i ≢ j
      → s.find_by_id j (s.find_one_and_update i matches change jobs).1 ≡ s.find_by_id j jobs
  update-other j d = ground (arith, s.find_by_id-updated i j matches change jobs)

  pub update-miss :
      matches_in matches (s.find_by_id i jobs) ≡ false
      → ((s.find_one_and_update i matches change jobs).0 ≡ none)
        × ((j : ℕ)
            → s.find_by_id j (s.find_one_and_update i matches change jobs).1 ≡ s.find_by_id j jobs)
  update-miss h =
      let (found, stored) = found_miss matches change (s.find_by_id i jobs) h in
      (
        s.updated_document i matches change jobs ∙ found,
        λ j. elim (Bool-cases (i == j)) [
          | inl e ↦
              subst
                (λ k.
                  s.find_by_id k (s.find_one_and_update i matches change jobs).1
                  ≡ s.find_by_id k jobs)
                ((==_iff i j).0 e)
                (s.find_by_id-updated i i matches change jobs ∙ rw (==_refl i) stored)
          | inr e ↦ update-other j (ground arith)
        ],
      )
