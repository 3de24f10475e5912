-- ===== src/Jobs/Access.antt =====
-- Who may see a job (modules/jobs/jobs.controller.js, `getJobStatus` and the checks of `cancelJob`).
use ai_distributed_job_platf.Prelude.{
  ℕ, ◌≡◌, ◌≢◌, ◌↔◌, ◌⊎◌, inl, inr, refl, sym, true, false, none, some, ok, ◌==◌, Option-cases, [],
  ◌∷◌, template, arith,
}
use ai_distributed_job_platf.Models.Job.{Job, status_text}
use ai_distributed_job_platf.Services.{Services}
use ai_distributed_job_platf.Services.World.{World, document}
use ai_distributed_job_platf.Jobs.{Response, respond, error, job_found, is_terminal}
use ai_distributed_job_platf.Jobs.Handlers.{get_job_status, cancel_owned, cancel_job}

module _ ⦃s : Services⦄ (user_id job_id : ℕ) (w : World) where
  -- A query of a job changes nothing. It answers 200 with a document exactly if that is the document
  -- under the id and belongs to the user who asks.
  pub get_job_status-owner :
      (i : ℕ) (job : Job)
      → (((get_job_status user_id job_id w).0 ≡ ok (respond 200 (job_found i job)))
          ↔ ((i ≡ job_id) × (document job_id w ≡ some job) × (job.user_id ≡ user_id)))
        × ((get_job_status user_id job_id w).1 ≡ w)
  unfolding get_job_status
  get_job_status-owner i job = elim (Option-cases (document job_id w)) [
    | inl gone ↦ rw gone ((λ h. cc, λ h. cc), refl)
    | inr (d, here) ↦ rw here ((λ h. ground arith, λ h. ground arith), ground arith)
  ]

  -- A cancellation of a job that is not there, that belongs to another user, or that is COMPLETED,
  -- FAILED, DEAD_LETTER or CANCELLED changes nothing, and answers 404, 403 and 409.
  pub cancel_job-refused :
      (now code : ℕ)
      → ((document job_id w ≡ none) × (code ≡ 404))
        ⊎ ((job : Job) × (document job_id w ≡ some job)
            × (((job.user_id ≢ user_id) × (code ≡ 403))
                ⊎ ((job.user_id ≡ user_id) × (is_terminal job.status ≡ true) × (code ≡ 409))))
      → (answer : Response) × (cancel_job now user_id job_id w ≡ (ok answer, w))
        × (answer.status ≡ code)
  unfolding cancel_job cancel_owned
  cancel_job-refused now code (inl (gone, c)) =
      (respond 404 (error "Job not found"), rw gone refl, sym c)
  cancel_job-refused now code (inr (job, here, inl (foreign, c))) =
      let other : (job.user_id == user_id) ≡ false = ground arith in
      (respond 403 (error "You do not have access to this job"), rw here (rw other refl), sym c)
  cancel_job-refused now code (inr (job, here, inr (own, over, c))) =
      let same : (job.user_id == user_id) ≡ true = ground arith in
      (
        respond 409 (
            error
              (template ("Cannot cancel a job that is already " ∷ status_text job.status ∷ []))),
        rw here (rw same (rw over refl)),
        sym c,
      )
