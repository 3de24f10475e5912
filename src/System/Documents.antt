-- ===== src/System/Documents.antt =====
-- What stays true of the documents however the processes interleave.
use ai_distributed_job_platf.Prelude.{
  ℕ, ◌≡◌, ◌≢◌, ◌⊎◌, inl, inr, refl, sym, ap, subst, ◌∙◌, Bool, [], ◌++◌, Option, none, some, ◌==◌,
  ==_refl, Bool-cases, Option-cases, arith,
}
use mathlib.Core.List.{append_assoc, append-nil}
use ai_distributed_job_platf.Models.Job.{Job, queued}
use ai_distributed_job_platf.Services.{Services}
use ai_distributed_job_platf.Services.Mongo.{updated}
use ai_distributed_job_platf.System.Changes.{Later, IsProper}
use ai_distributed_job_platf.System.Effects.{Effect, same, changed, created}

pub Later-refl : (d : Job) → Later d d
Later-refl d = record {
  request = refl;
  history = ([], sym (append-nil d.history));
  recoverable = λ h. h;
}

pub Later-trans : (d e f : Job) → Later d e → Later e f → Later d f
Later-trans d e f h k = record {
  request = k.request ∙ h.request;
  history = (
    h.history.0 ++ k.history.0,
    k.history.1
        ∙ (ap (λ l. l ++ k.history.0) h.history.1 ∙ append_assoc d.history h.history.0 k.history.0),
  );
  recoverable = λ r. k.recoverable (h.recoverable r);
}

updated-Later :
    (matches : Job → Bool) (change : Job → Job) (d : Job)
    → IsProper change
    → Later d (updated matches change d)
updated-Later matches change d proper = elim (Bool-cases (matches d)) [
  | inl hit ↦ rw hit (proper d)
  | inr miss ↦ rw miss (Later-refl d)
]

-- What is stored under the id after a step, if `o` was before: a later state of the document.
abbrev pub Continues : Option Job → Option Job → Type 0
Continues none o = o ≡ none
Continues (some d) o = (e : Job) × (o ≡ some e) × Later d e

Continues-refl : (o : Option Job) → Continues o o
Continues-refl none = refl
Continues-refl (some d) = (d, refl, Later-refl d)

module _ ⦃s : Services⦄ where
  changed-Continues :
      (i j : ℕ) (matches : Job → Bool) (change : Job → Job) (a : s.Jobs)
      → IsProper change
      → Continues (s.find_by_id j a) (s.find_by_id j (s.find_one_and_update i matches change a).1)
  changed-Continues i j matches change a proper =
      rw (s.find_by_id-updated i j matches change a) (elim (Bool-cases (i == j)) [
        | inl here ↦ rw here (elim (Option-cases (s.find_by_id j a)) [
          | inl gone ↦ rw gone refl
          | inr (d, found) ↦ rw found (_, refl, updated-Later matches change d proper)
        ])
        | inr apart ↦ rw apart (Continues-refl (s.find_by_id j a))
      ])

  -- A QUEUED job was created under the new id `i`, with a key that was free.
  pub record Creation (i : ℕ) (job : Job) (a b : s.Jobs) : Type 0 where
    pub waits : job.status ≡ queued
    pub fresh : s.find_by_id i a ≡ none
    pub free : s.find_by_key job.idempotency_key a ≡ none
    pub stored : s.find_by_id i b ≡ some job
    pub others : (j : ℕ) → i ≢ j → s.find_by_id j b ≡ s.find_by_id j a

  pub created-cases :
      (job : Job) (a b : s.Jobs)
      → job.status ≡ queued
      → b ≡ (s.create job a).1
      → (b ≡ a) ⊎ ((i : ℕ) × Creation i job a b)
  created-cases job a b waits e = elim (Option-cases (s.find_by_key job.idempotency_key a)) [
    | inl free ↦
        let (i, id) = s.create-fresh job a free in
        let stored = λ (j : ℕ). ap (s.find_by_id j) e ∙ s.find_by_id-created job a i j id in
        inr (
          i,
          record {
            waits = waits;
            fresh = s.created_id job a i id;
            free = free;
            stored = stored i ∙ rw (==_refl i) refl;
            others = λ j apart. ground (arith, stored j);
          },
        )
    | inr (found, taken) ↦ inl (e ∙ ap (λ r. r.1) (s.create-taken job a found taken))
  ]

  -- A step continues all documents, or creates one.
  pub Effect-cases :
      (a b : s.Jobs)
      → Effect a b
      → ((j : ℕ) → Continues (s.find_by_id j a) (s.find_by_id j b))
        ⊎ ((i : ℕ) × (job : Job) × Creation i job a b)
  Effect-cases a b (same e) = inl (λ j.
      subst (λ c. Continues (s.find_by_id j a) (s.find_by_id j c)) (sym e)
        (Continues-refl (s.find_by_id j a)))
  Effect-cases a b (changed i matches change proper e) = inl (λ j.
      subst (λ c. Continues (s.find_by_id j a) (s.find_by_id j c)) (sym e)
        (changed-Continues i j matches change a proper))
  Effect-cases a b (created job waits e) = elim (created-cases job a b waits e) [
    | inl kept ↦ inl (λ j.
        subst (λ c. Continues (s.find_by_id j a) (s.find_by_id j c)) (sym kept)
          (Continues-refl (s.find_by_id j a)))
    | inr (i, creation) ↦ inr (i, job, creation)
  ]
