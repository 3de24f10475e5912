-- ===== src/Worker/Tests.antt =====
-- Runs of worker/worker.js on the states of `Samples`.
use ai_distributed_job_platf.Prelude.{
  ℕ, ◌<◌, ◌≤◌, ◌≡◌, ◌⊎◌, refl, List, [], ◌∷◌, none, some, Error, plain_error, ok, threw, length,
  any, arith, max, ◌==◌, if◌then◌else◌,
}
use ai_distributed_job_platf.Models.Json.{Json, num}
use ai_distributed_job_platf.Models.Job.{Job, completed, cancelled}
use ai_distributed_job_platf.Services.World.{World, document, redis_error, SameQueues, Untouched}
use ai_distributed_job_platf.Services.Memory.{memory}
use ai_distributed_job_platf.Samples.{
  waiting_job, running_job, retrying_job, no_members, world_with, busy_world, down,
}
use ai_distributed_job_platf.Queue.{claim_next_job}
use ai_distributed_job_platf.JobHandlers.{get_handler}
use ai_distributed_job_platf.Worker.{
  compute_backoff_ms, entry, set_cancelled, finalize_job, handle_failure,
}
use ai_distributed_job_platf.Worker.Process.{process_job, Handlers, run_handler}
use ai_distributed_job_platf.Worker.Loops.{recover_stale_jobs}
use ai_distributed_job_platf.Worker.Backoff.{compute_backoff_ms_lem}
use ai_distributed_job_platf.Worker.Fencing.{finalize_job-Untouched}
use ai_distributed_job_platf.Worker.Failure.{handle_failure-lost}
use ai_distributed_job_platf.Worker.Decisions.{set_retrying}
use ai_distributed_job_platf.Worker.Retries.{
  failed_status, KeepsFailing, AfterFailures, attempts_at, attempts_at-AfterFailures,
}
use ai_distributed_job_platf.Worker.Endings.{IsOver, process_until_over, process_until_over-IsOver}
use ai_distributed_job_platf.Worker.Unknown.{process_job-inherited}
use ai_distributed_job_platf.Worker.Losses.{claim_next_job_crash}

abbrev failure : Error
failure = plain_error "SMTP server down"

abbrev running_world : World
running_world = world_with running_job

compute_backoff_ms_lem_example :
    ((2 < 5) × (compute_backoff_ms 3 ≡ 8000)) ⊎ ((5 ≤ 2) × (compute_backoff_ms 3 ≡ 60000))
compute_backoff_ms_lem_example = compute_backoff_ms_lem 2

-- "w2" lost the lock to "w1".
finalize_job-Untouched_example :
    ((finalize_job 0 (some "w2") set_cancelled (entry cancelled 5000 "w2" "late") running_world).0
      ≡ ok none)
    × Untouched running_world
        (finalize_job 0
          (some "w2")
          set_cancelled
          (entry cancelled 5000 "w2" "late")
          running_world).1
finalize_job-Untouched_example =
    finalize_job-Untouched 0 (some "w2") set_cancelled (entry cancelled 5000 "w2" "late")
      running_world refl

handle_failure-lost_example :
    let (r, w') = handle_failure "w1" 5000 0 running_job failure (some "w1") (down running_world) in
    (r ≡ threw redis_error)
    × (document 0 w' ≡ some (set_retrying "w1" 5000 running_job failure running_job))
    × SameQueues (down running_world) w'
handle_failure-lost_example =
    handle_failure-lost "w1" 5000 0 running_job failure (some "w1") (down running_world) running_job
      refl refl (omega arith) (λ e. cc) refl

abbrev fail_always : Handlers
fail_always handler payload = some (threw failure)

fails_always : KeepsFailing fail_always "send-email"
unfolding run_handler get_handler any
fails_always d e = (failure, rw e refl, λ e. cc)

abbrev three_attempts : List (ℕ × ℕ)
three_attempts = (1000, 2000) ∷ (5000, 6000) ∷ (11000, 12000) ∷ []

attempts_at-AfterFailures_example :
    (d : Job) × (document 0 (attempts_at "w1" fail_always 0 three_attempts (world_with waiting_job))
      ≡ some d)
    × AfterFailures (length three_attempts) waiting_job d
    × (d.status ≡ failed_status 3 3)
attempts_at-AfterFailures_example =
    attempts_at-AfterFailures "w1" fail_always 0 three_attempts (world_with waiting_job) waiting_job
      fails_always refl refl (omega arith)

abbrev ready_world : World
ready_world = record busy_world { jobs = record { size = 3; at = λ i. retrying_job } }

abbrev unknown_job : Job
unknown_job = record waiting_job { type_name = "send-mail" }

abbrev inherited_job : Job
inherited_job = record waiting_job { type_name = "constructor" }

-- `Object(payload)` is the payload.
abbrev return_payload : Handlers
return_payload handler payload = some (ok payload)

process_job-inherited_example :
    let w' = (process_job "w1" 1000 2000 return_payload 0 (world_with inherited_job)).1 in
    (d : Job) × (document 0 w' ≡ some d)
    × (d.status ≡ completed)
    × (d.result ≡ some inherited_job.payload)
process_job-inherited_example =
    process_job-inherited "w1" return_payload 1000 2000 0 (world_with inherited_job) inherited_job
      refl inherited_job.payload (unfold any in refl) refl refl

abbrev queued_world : World
queued_world = record (world_with waiting_job) {
  queue = memory.zadd 5_000_000_001_000 0 no_members;
}

takes_it : (claim_next_job queued_world).0 ≡ ok (some 0)
unfolding claim_next_job
takes_it = refl

claim_next_job_crash_example :
    let w₁ = (claim_next_job queued_world).1 in
    (memory.zscore 0 w₁.queue ≡ none)
    × (memory.zscore 0 w₁.delayed ≡ none)
    × (document 0 (recover_stale_jobs "w2" 900_000 w₁).1 ≡ some waiting_job)
claim_next_job_crash_example =
    claim_next_job_crash "w2" 900_000 0 waiting_job queued_world refl refl refl refl takes_it

-- The second attempt of "w1", while its first one has not ended.
abbrev second_attempt : Job
second_attempt = record running_job { attempts = 2 }

-- The handlers fail at first, and bring a result in the last of three attempts.
abbrev script : ℕ → ℕ × ℕ × Handlers
script left =
    (1000, 2000, if left == 0 then (λ type_name payload. some (ok (num 1))) else fail_always)

process_until_over-IsOver_example :
    (e : Job) × (document 0 (process_until_over "w1" 0 script 3 (world_with waiting_job)) ≡ some e)
    × IsOver e.status
    × (e.locked_by ≡ none)
    × (e.attempts ≤ max 3 1)
process_until_over-IsOver_example =
    process_until_over-IsOver "w1" 0 script 3 (world_with waiting_job) waiting_job refl refl
      (omega arith) (omega arith)
