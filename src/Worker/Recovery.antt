-- ===== src/Worker/Recovery.antt =====
-- Taking over jobs whose lock has run out (worker/worker.js, `recoverStaleJobs`).
use ai_distributed_job_platf.Prelude.{
  ℕ, ◌≡◌, ◌≢◌, refl, ap, ap₂, ◌∙◌, String, Bool, true, false, List, [], ◌∷◌, some, ok, All,
  str_eq_iff,
}
use ai_distributed_job_platf.Models.Job.{Job}
use ai_distributed_job_platf.Services.{Services}
use ai_distributed_job_platf.Services.World.{World, document, Untouched}
use ai_distributed_job_platf.Services.Loops.{for_each-keeps}
use ai_distributed_job_platf.Worker.{owner_eq, handle_failure}
use ai_distributed_job_platf.Worker.Loops.{is_stale, lock_expired, recover_job, recover_stale_jobs}
use ai_distributed_job_platf.Worker.Failure.{
  handle_failure-SameButFor, handle_failure-stale, handle_failure-released,
}

module _ ⦃s : Services⦄ (worker_id : String) (now : ℕ) where
  recover_job-keeps :
      (j : ℕ) (d : Job) (e : ℕ × Job) (v : World)
      → e.0 ≢ j
      → document j v ≡ some d
      → document j (recover_job worker_id now e v).1 ≡ some d
  unfolding recover_job
  recover_job-keeps j d (i, job) v apart h =
      handle_failure-SameButFor worker_id now i job _ job.locked_by v j apart ∙ h

  found_apart :
      (matches : Job → Bool) (j : ℕ) (d : Job) (w : World) (found : List (ℕ × Job))
      → document j w ≡ some d
      → matches d ≡ false
      → All (λ e. (document e.0 w ≡ some e.1) × (matches e.1 ≡ true)) found
      → All (λ e. e.0 ≢ j) found
  found_apart matches j d w [] here fine h = tt
  found_apart matches j d w ((i, job) ∷ found) here fine h = (
    λ same. cc (ap (λ k. document k w) same, here, h.0.0, h.0.1, fine),
    found_apart matches j d w found here fine h.1,
  )

  -- A recovery scan changes no job but those that are PROCESSING with a lock that has run out before
  -- the scan's time, even if Redis fails it half way.
  pub recover_stale_jobs-keeps :
      (w : World) (j : ℕ) (d : Job)
      → document j w ≡ some d
      → is_stale now d ≡ false
      → document j (recover_stale_jobs worker_id now w).1 ≡ some d
  unfolding recover_stale_jobs
  recover_stale_jobs-keeps w j d here fine =
      for_each-keeps (λ v. document j v ≡ some d) (λ e. e.0 ≢ j) (recover_job worker_id now)
        (recover_job-keeps j d) (s.find (is_stale now) w.jobs) w
        (found_apart (is_stale now) j d w _ here fine (s.find-sound (is_stale now) w.jobs)) here

module _ ⦃s : Services⦄ where
  -- Two workers whose scans found the same locked job: the second one to write changes nothing, so
  -- the job is not scheduled or given up twice.
  recover_job_twice :
      (first second : String) (now later job_id : ℕ) (d : Job) (owner : String) (w : World)
      → document job_id w ≡ some d
      → d.locked_by ≡ some owner
      → let w' = (recover_job first now (job_id, d) w).1 in
        ((recover_job second later (job_id, d) w').0 ≡ ok tt)
        × Untouched w' (recover_job second later (job_id, d) w').1
  unfolding recover_job
  recover_job_twice first second now later job_id d owner w here locked =
      let error = lock_expired d.locked_by in
      let self : owner_eq d.locked_by d.locked_by ≡ true =
        rw locked ((str_eq_iff owner owner).1 refl) in
      let (d', stored, free) =
        handle_failure-released first now job_id d error d.locked_by w d here self in
      handle_failure-stale second later job_id d error d.locked_by
        (handle_failure first now job_id d error d.locked_by w).1
        (rw stored (ap₂ owner_eq free locked))
