-- ===== src/Services/Mongo.antt =====
-- The MongoDB collection behind `mongoose.model("Job", …)`, as far as the code uses it.
use ai_distributed_job_platf.Prelude.{
  ℕ, String, ◌≡◌, ◌≢◌, Bool, List, Option, none, some, All, ◌==◌, includes, keys, if◌then◌else◌,
}
use ai_distributed_job_platf.Models.Job.{Job}

-- What a conditional update makes of one document.
abbrev pub updated : (Job → Bool) → (Job → Job) → Job → Job
updated matches change job = if matches job then change job else job

abbrev pub found_and_updated : (Job → Bool) → (Job → Job) → Option Job → Option Job
found_and_updated matches change none = none
found_and_updated matches change (some job) = if matches job then some (change job) else none

abbrev pub at_id : Option Job → (Job → Job) → Option Job
at_id none f = none
at_id (some job) f = some (f job)

pub record JobCollection : Type 1 where
  pub Jobs : Type 0
  pub find_by_id : ℕ → Jobs → Option Job
  -- `findOne({ idempotencyKey })`.
  pub find_by_key : String → Jobs → Option (ℕ × Job)
  -- `find(filter)`.
  pub find : (Job → Bool) → Jobs → List (ℕ × Job)
  -- `findOneAndUpdate({ _id, …filter }, change, { returnDocument: "after" })`, one atomic step.
  pub find_one_and_update : ℕ → (Job → Bool) → (Job → Job) → Jobs → Option Job × Jobs
  -- `create(document)`: `none` where the unique index on `idempotencyKey` refuses the document.
  pub create : Job → Jobs → Option ℕ × Jobs
  pub updated_document :
      (i : ℕ) (matches : Job → Bool) (change : Job → Job) (jobs : Jobs)
      → (find_one_and_update i matches change jobs).0
        ≡ found_and_updated matches change (find_by_id i jobs)
  pub find_by_id-updated :
      (i j : ℕ) (matches : Job → Bool) (change : Job → Job) (jobs : Jobs)
      → find_by_id j (find_one_and_update i matches change jobs).1
        ≡ (if i == j then at_id (find_by_id j jobs) (updated matches change) else find_by_id j jobs)
  pub find_by_key-sound :
      (k : String) (jobs : Jobs) (i : ℕ) (job : Job)
      → find_by_key k jobs ≡ some (i, job)
      → (find_by_id i jobs ≡ some job) × (job.idempotency_key ≡ k)
  pub find_by_key-complete :
      (k : String) (jobs : Jobs) (i : ℕ) (job : Job)
      → find_by_key k jobs ≡ none
      → find_by_id i jobs ≡ some job
      → job.idempotency_key ≢ k
  pub find-sound :
      (matches : Job → Bool) (jobs : Jobs)
      → All (λ d. (find_by_id d.0 jobs ≡ some d.1) × (matches d.1 ≡ Bool.true)) (find matches jobs)
  pub find-complete :
      (matches : Job → Bool) (jobs : Jobs) (i : ℕ) (job : Job)
      → find_by_id i jobs ≡ some job
      → matches job ≡ Bool.true
      → includes i (keys (find matches jobs)) ≡ Bool.true
  pub create-fresh :
      (job : Job) (jobs : Jobs)
      → find_by_key job.idempotency_key jobs ≡ none
      → (i : ℕ) × ((create job jobs).0 ≡ some i)
  pub create-taken :
      (job : Job) (jobs : Jobs) (d : ℕ × Job)
      → find_by_key job.idempotency_key jobs ≡ some d
      → create job jobs ≡ (none, jobs)
  pub find_by_id-created :
      (job : Job) (jobs : Jobs) (i j : ℕ)
      → (create job jobs).0 ≡ some i
      → find_by_id j (create job jobs).1 ≡ (if i == j then some job else find_by_id j jobs)
  pub created_id :
      (job : Job) (jobs : Jobs) (i : ℕ) → (create job jobs).0 ≡ some i → find_by_id i jobs ≡ none
