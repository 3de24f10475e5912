-- ===== src/Worker/Rescue.antt =====
-- What a recovery scan does for a job whose lock has run out (worker/worker.js, `recoverStaleJobs`).
use ai_distributed_job_platf.Prelude.{
  ℕ, ◌+◌, ◌<◌, ◌≡◌, ◌≢◌, ◌⊎◌, inl, inr, refl, sym, ap, ap₂, subst, ◌∙◌, String, Bool, true, List,
  [], ◌∷◌, none, some, ok, ◌==◌, ==_iff, ==_refl, ◌&&◌, includes, keys, All, str_eq_iff, Bool-cases,
  arith,
}
use native.Mathlib.Decide.{dec_lt}
use ai_distributed_job_platf.Models.Job.{Job, processing, status_eq}
use ai_distributed_job_platf.Services.{Services}
use ai_distributed_job_platf.Services.World.{World, document, for_each}
use ai_distributed_job_platf.Worker.{compute_backoff_ms, owner_eq}
use ai_distributed_job_platf.Worker.Loops.{
  is_expired, is_stale, lock_expired, recover_job, recover_stale_jobs,
}
use ai_distributed_job_platf.Worker.Failure.{
  handle_failure-stale, handle_failure-SameButFor, handle_failure-dead_letter, handle_failure-retry,
}
use ai_distributed_job_platf.Worker.Decisions.{dead_lettered, set_retrying}
use ai_distributed_job_platf.Worker.Frames.{handle_failure-delayed, handle_failure-ok}
use ai_distributed_job_platf.Worker.Retries.{failed_status}

module _ ⦃s : Services⦄ (worker_id : String) (now : ℕ) where
  -- The job `d` under the id `j` after the scan took it over.
  pub record Recovered (j : ℕ) (d : Job) (v : World) : Type 0 where
    pub after : Job
    pub stored : document j v ≡ some after
    pub free : after.locked_by ≡ none
    pub status : after.status ≡ failed_status d.attempts d.max_attempts
    pub scheduled :
        d.attempts < d.max_attempts
        → s.zscore j v.delayed ≡ some (now + compute_backoff_ms d.attempts)

  recover_job-Recovered :
      (j : ℕ) (d : Job) (owner : String) (v : World)
      → document j v ≡ some d
      → d.locked_by ≡ some owner
      → v.redis_up ≡ true
      → Recovered j d (recover_job worker_id now (j, d) v).1
  unfolding recover_job
  recover_job-Recovered j d owner v here locked up =
      let self : owner_eq d.locked_by d.locked_by ≡ true =
        rw locked ((str_eq_iff owner owner).1 refl) in
      let err = lock_expired d.locked_by in
      elim (dec_lt d.attempts d.max_attempts) [
        | yes left ↦
            let f =
              handle_failure-retry worker_id now j d err d.locked_by v d here self left (λ e. cc)
                up in
            record {
              after = set_retrying worker_id now d err d;
              stored = f.1;
              free = refl;
              status = ground arith;
              scheduled = λ _. f.5 j ∙ rw (==_refl j) refl;
            }
        | no used ↦
            let f =
              handle_failure-dead_letter worker_id now j d err d.locked_by v d here self
                (inl (omega arith)) in
            record {
              after = dead_lettered worker_id now d err d;
              stored = f.1;
              free = refl;
              status = ground arith;
              scheduled = λ left. absurd (used left);
            }
      ]

  recover_job-ok :
      (i : ℕ) (job : Job) (v : World)
      → v.redis_up ≡ true
      → ((recover_job worker_id now (i, job) v).0 ≡ ok tt)
        × ((recover_job worker_id now (i, job) v).1.redis_up ≡ true)
  unfolding recover_job
  recover_job-ok i job v up =
      handle_failure-ok worker_id now i job (lock_expired job.locked_by) job.locked_by v up

  module _ (j : ℕ) (d : Job) (owner : String) (locked : d.locked_by ≡ some owner) where
    -- A recovery of another job leaves what was done for this one.
    other-Recovered :
        (i : ℕ) (job : Job) (v : World)
        → i ≢ j
        → Recovered j d v
        → Recovered j d (recover_job worker_id now (i, job) v).1
    unfolding recover_job
    other-Recovered i job v apart r = record {
      after = r.after;
      stored =
          handle_failure-SameButFor worker_id now i job (lock_expired job.locked_by) job.locked_by v
            j apart
          ∙ r.stored;
      free = r.free;
      status = r.status;
      scheduled = λ left.
          handle_failure-delayed worker_id now i job (lock_expired job.locked_by) job.locked_by v j
            apart
          ∙ r.scheduled left;
    }

    -- A second recovery of this job changes nothing.
    again-Recovered :
        (v : World) → Recovered j d v → Recovered j d (recover_job worker_id now (j, d) v).1
    unfolding recover_job
    again-Recovered v r =
        let (done, untouched) =
          handle_failure-stale worker_id now j d (lock_expired d.locked_by) d.locked_by v
            (rw (r.stored, r.free, locked) refl) in
        record {
          after = r.after;
          stored = untouched.documents j ∙ r.stored;
          free = r.free;
          status = r.status;
          scheduled = λ left. ap (s.zscore j) untouched.queues.delayed ∙ r.scheduled left;
        }

    -- Either the job is still to come in the list, or it was done.
    abbrev Pending : List (ℕ × Job) → World → Type 0
    Pending found v = ((document j v ≡ some d) × (includes j (keys found) ≡ true)) ⊎ Recovered j d v

    next-Pending :
        (i : ℕ) (job : Job) (found : List (ℕ × Job)) (v : World)
        → v.redis_up ≡ true
        → (j ≡ i → job ≡ d)
        → Pending ((i, job) ∷ found) v
        → Pending found (recover_job worker_id now (i, job) v).1
    unfolding recover_job includes
    next-Pending i job found v up same h = elim (Bool-cases (i == j)) [
      | inl here ↦
          let at_j : i ≡ j = (==_iff i j).0 here in
          let this : job ≡ d = same (sym at_j) in
          inr (
            subst (λ e. Recovered j d (recover_job worker_id now e v).1)
              (ap₂ (λ a b. (a, b)) (sym at_j) (sym this))
              (elim h [
                | inl (stored, _) ↦ recover_job-Recovered j d owner v stored locked up
                | inr r ↦ again-Recovered v r
              ]))
      | inr apart ↦ elim h [
        | inl (stored, listed) ↦ inl (
          handle_failure-SameButFor worker_id now i job (lock_expired job.locked_by) job.locked_by v
                j (ground arith)
              ∙ stored,
          ground arith,
        )
        | inr r ↦ inr (other-Recovered i job v (ground arith) r)
      ]
    ]

    loop-Recovered :
        (found : List (ℕ × Job)) (v : World)
        → v.redis_up ≡ true
        → All (λ e. j ≡ e.0 → e.1 ≡ d) found
        → Pending found v
        → ((for_each (recover_job worker_id now) found v).0 ≡ ok tt)
          × Recovered j d (for_each (recover_job worker_id now) found v).1
    unfolding for_each includes
    loop-Recovered [] v up same (inl h) = cc
    loop-Recovered [] v up same (inr r) = (refl, r)
    loop-Recovered ((i, job) ∷ found) v up same h =
        let (done, up') = recover_job-ok i job v up in
        let rest =
          loop-Recovered found (recover_job worker_id now (i, job) v).1 up' same.1
            (next-Pending i job found v up same.0 h) in
        rw done rest

    found_same :
        (matches : Job → Bool) (w : World) (found : List (ℕ × Job))
        → document j w ≡ some d
        → All (λ e. (document e.0 w ≡ some e.1) × (matches e.1 ≡ true)) found
        → All (λ e. j ≡ e.0 → e.1 ≡ d) found
    found_same matches w [] here h = tt
    found_same matches w ((i, job) ∷ found) here h =
        (λ same. cc (ap (λ k. document k w) same, here, h.0.0), found_same matches w found here h.1)

    -- When Redis answers, a recovery scan ends, and no job whose lock has run out stays PROCESSING: a
    -- job that is PROCESSING with an owner and a lock that ended before the scan's time has no owner
    -- afterwards, and is RETRYING if it has attempts left and DEAD_LETTER if not; if attempts are
    -- left, it is in the delayed queue, ready at the end of its backoff.
    pub recover_stale_jobs-Recovered :
        (expires : ℕ) (w : World)
        → document j w ≡ some d
        → d.status ≡ processing
        → d.lock_expires_at ≡ some expires
        → expires < now
        → w.redis_up ≡ true
        → ((recover_stale_jobs worker_id now w).0 ≡ ok tt)
          × Recovered j d (recover_stale_jobs worker_id now w).1
    unfolding recover_stale_jobs
    recover_stale_jobs-Recovered expires w here runs ends late up =
        let stale : is_stale now d ≡ true =
          ap (λ x. status_eq x processing && is_expired now d.lock_expires_at) runs
          ∙ (ap (is_expired now) ends ∙ ground arith) in
        loop-Recovered (s.find (is_stale now) w.jobs) w up
          (found_same (is_stale now) w _ here (s.find-sound (is_stale now) w.jobs))
          (inl (here, s.find-complete (is_stale now) w.jobs j d here stale))
