-- ===== src/Jobs/Resubmit.antt =====
-- Submitting the same job again (modules/jobs/jobs.controller.js, `submitJob`).
use ai_distributed_job_platf.Prelude.{
  ℕ, ◌≡◌, refl, sym, ap, ap₂, ◌∙◌, inl, inr, String, true, Option, none, some, ok, ◌==◌, ==_iff,
  ==_refl, if◌then◌else◌, Bool-cases, arith,
}
use ai_distributed_job_platf.Models.Job.{Job}
use ai_distributed_job_platf.Services.{Services}
use ai_distributed_job_platf.Services.World.{World, document}
use ai_distributed_job_platf.Jobs.{
  respond, already_submitted, Submission, present, is_redis_healthy, new_job,
}
use ai_distributed_job_platf.Jobs.Handlers.{submit_job}
use ai_distributed_job_platf.Jobs.Submit.{submit_job-taken, submit_job-Submitted}

module _ ⦃s : Services⦄ where
  -- A submission that passes the checks: its type, its key, and an answer of Redis to the health
  -- check.
  pub record IsComplete (r : Submission) (pong : Option String) (key : String) : Type 0 where
    pub type_name : String
    pub typed : present r.type_name ≡ some type_name
    pub keyed : present r.idempotency_key ≡ some key
    pub healthy : is_redis_healthy pong ≡ true

  -- If exactly one document has the key, a submission finds that one.
  resubmit_unique :
      (iso : ℕ → String) (now : ℕ) (pong : Option String) (user_id : ℕ) (r : Submission)
      (key : String) (v : World) (job_id : ℕ) (job : Job)
      → IsComplete r pong key
      → document job_id v ≡ some job
      → job.idempotency_key ≡ key
      → ((i : ℕ) (other : Job)
          → document i v ≡ some other
          → other.idempotency_key ≡ key
          → job_id ≡ i)
      → submit_job iso now pong user_id r v ≡ (ok (respond 200 (already_submitted job_id job)), v)
  resubmit_unique iso now pong user_id r key v job_id job c here same unique =
      let (i, other, there, has_key, answer) =
        submit_job-taken iso now pong user_id r c.type_name key c.typed c.keyed c.healthy v job_id
          job here same in
      let same_id : job_id ≡ i = unique i other there has_key in
      let same_job : job ≡ other = cc (here, there, ap (λ k. document k v) same_id) in
      answer
      ∙ ap₂ (λ k d. (ok (respond 200 (already_submitted k d)), v)) (sym same_id) (sym same_job)

  -- After the submission of a job with a free key, the job is the only one with this key.
  created_unique :
      (key : String) (w v : World) (job_id : ℕ) (job : Job)
      → s.find_by_key key w.jobs ≡ none
      → ((n : ℕ) → document n v ≡ (if job_id == n then some job else document n w))
      → (i : ℕ) (other : Job) → document i v ≡ some other
      → other.idempotency_key ≡ key
      → job_id ≡ i
  created_unique key w v job_id job free documents i other there has_key =
      elim (Bool-cases (job_id == i)) [
        | inl e ↦ (==_iff job_id i).0 e
        | inr e ↦
            absurd
              (s.find_by_key-complete key w.jobs i other free (ground (arith, documents i)) has_key)
      ]

  -- Idempotency: once a job was submitted with a free key, while Redis answered, every complete
  -- submission with that key, by any user, at any time and with any contents, answers 200 with the
  -- first job and its id, and changes nothing, as long as the documents stay as the first
  -- submission left them.
  pub submit_job_twice :
      (iso : ℕ → String) (now now' : ℕ) (pong pong' : Option String) (user user' : ℕ)
      (r r' : Submission) (key : String) (w v : World) (c : IsComplete r pong key)
      → IsComplete r' pong' key
      → s.find_by_key key w.jobs ≡ none
      → w.redis_up ≡ true
      → v.jobs ≡ (submit_job iso now pong user r w).1.jobs
      → (job_id : ℕ) × (document job_id w ≡ none)
        × (submit_job iso now' pong' user' r' v ≡ (
          ok (respond 200 (already_submitted job_id (new_job iso now user c.type_name key r))),
          v,
        ))
  submit_job_twice iso now now' pong pong' user user' r r' key w v c c' free up kept =
      let job = new_job iso now user c.type_name key r in
      let (job_id, answer, created) =
        submit_job-Submitted iso now pong user r c.type_name key c.typed c.keyed c.healthy w free
          up in
      let documents = λ (n : ℕ). ap (s.find_by_id n) kept ∙ created.documents n in
      (
        job_id,
        created.fresh,
        resubmit_unique iso now' pong' user' r' key v job_id job c'
            (documents job_id ∙ rw (==_refl job_id) refl) refl
            (created_unique key w v job_id job free documents),
      )
