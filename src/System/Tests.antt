-- ===== src/System/Tests.antt =====
-- Interleavings of a submission, two workers and a cancellation, on the states of `Samples`.
use ai_distributed_job_platf.Prelude.{
  ℕ, suc, ◌+◌, ◌≡◌, false, List, [], ◌∷◌, none, some, refl, show, arith,
}
use ai_distributed_job_platf.Models.Json.{num}
use ai_distributed_job_platf.Models.Job.{Job}
use ai_distributed_job_platf.Services.World.{document}
use ai_distributed_job_platf.Services.Memory.{memory}
use ai_distributed_job_platf.Samples.{waiting_job, running_job, world_with}
use ai_distributed_job_platf.Worker.Process.{claimed}
use ai_distributed_job_platf.Worker.Loops.{recover_stale_jobs}
use ai_distributed_job_platf.Worker.Retries.{failed_status}
use ai_distributed_job_platf.Jobs.{Submission}
use ai_distributed_job_platf.System.{Step, submission, cancellation, claim, start, finish, run}
use ai_distributed_job_platf.System.Changes.{Later}
use ai_distributed_job_platf.System.Invariants.{run-Later, AllRecoverable}
use ai_distributed_job_platf.System.Liveness.{run_recovers}

abbrev request : Submission
request = record {
  type_name = some "send-email";
  payload = none;
  priority = none;
  idempotency_key = some "k1";
  timeout_ms = none;
  max_attempts = none;
  scheduled_for = none;
}

-- Two submissions with one key, both of which found no job; a worker starts the job, and the user
-- cancels it with the document that was loaded before.
abbrev steps : List Step
steps =
    submission show 1000 7 "send-email" "k1" request none
    ∷ submission show 1000 7 "send-email" "k1" request none
    ∷ claim
    ∷ start "w1" 1500 0 (some waiting_job)
    ∷ cancellation 1600 0 waiting_job
    ∷ finish "w1" 2000 0 (claimed "w1" 1500 waiting_job) (num 1) false
    ∷ []

run-Later_example :
    (e : Job) × (document 0 (run steps (world_with running_job)) ≡ some e) × Later running_job e
run-Later_example = run-Later steps (world_with running_job) 0 running_job refl

running_recoverable : AllRecoverable (world_with running_job)
running_recoverable j d here p = (("w1", ground arith), (36000, ground arith))

-- A worker that stopped while it processed the job.
run_recovers_example :
    (expires : ℕ) × (running_job.lock_expires_at ≡ some expires)
    × ((wait : ℕ)
        → let w' =
            (recover_stale_jobs "w2" (suc expires + wait) (run [] (world_with running_job))).1 in
          (e : Job) × (document 0 w' ≡ some e) × (e.status ≡ failed_status 1 3))
run_recovers_example =
    run_recovers [] (world_with running_job) 0 running_job "w2" running_recoverable
      (unfold run in refl) refl (unfold run in refl)
