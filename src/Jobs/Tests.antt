-- ===== src/Jobs/Tests.antt =====
-- Runs of modules/jobs/jobs.controller.js on the states of `Samples`.
use ai_distributed_job_platf.Prelude.{
  ℕ, ◌≡◌, ◌↔◌, ◌+◌, refl, true, none, some, Error, plain_error, ok, threw, show, arith,
}
use ai_distributed_job_platf.Models.Json.{num}
use ai_distributed_job_platf.Models.Job.{Job, cancelled, retrying}
use ai_distributed_job_platf.Services.World.{document}
use ai_distributed_job_platf.Services.Memory.{memory}
use ai_distributed_job_platf.Samples.{
  waiting_job, running_job, retrying_job, world_with, empty_world,
}
use ai_distributed_job_platf.Queue.{compute_score}
use ai_distributed_job_platf.Worker.{compute_backoff_ms}
use ai_distributed_job_platf.Worker.Process.{finish_attempt}
use ai_distributed_job_platf.Worker.Loops.{promote_job}
use ai_distributed_job_platf.Worker.Promoting.{promoted}
use ai_distributed_job_platf.Jobs.{
  Response, respond, already_submitted, job_found, Submission, is_redis_healthy, new_job,
  cancel_waiting,
}
use ai_distributed_job_platf.Jobs.Handlers.{submit_job, get_job_status, cancel_job}
use ai_distributed_job_platf.Jobs.Submit.{submit_job-taken}
use ai_distributed_job_platf.Jobs.Resubmit.{IsComplete, submit_job_twice}
use ai_distributed_job_platf.Jobs.Access.{get_job_status-owner}
use ai_distributed_job_platf.Jobs.Races.{
  cancel_job-honored, cancel_job-outlived, cancel_job-promoted,
}

abbrev email : Submission
email = record {
  type_name = some "send-email";
  payload = none;
  priority = none;
  idempotency_key = some "k1";
  timeout_ms = none;
  max_attempts = none;
  scheduled_for = some (some 9000);
}

abbrev email_job : Job
email_job = new_job show 1000 7 "send-email" "k1" email

healthy : is_redis_healthy (some "PONG") ≡ true
unfolding is_redis_healthy
healthy = refl

-- Another user's job of the same key is there.
submit_job-taken_example :
    (i : ℕ) × (other : Job) × (document i (world_with waiting_job) ≡ some other)
    × (other.idempotency_key ≡ "k1")
    × (submit_job show 1000 (some "PONG") 8 email (world_with waiting_job)
        ≡ (ok (respond 200 (already_submitted i other)), world_with waiting_job))
submit_job-taken_example =
    submit_job-taken show 1000 (some "PONG") 8 email "send-email" "k1" refl refl healthy
      (world_with waiting_job) 0 waiting_job refl refl

email_complete : IsComplete email (some "PONG") "k1"
email_complete = record { type_name = "send-email"; typed = refl; keyed = refl; healthy = healthy }

submit_job_twice_example :
    let v = (submit_job show 1000 (some "PONG") 7 email empty_world).1 in
    (job_id : ℕ) × (document job_id empty_world ≡ none)
    × (submit_job show 2000 (some "PONG") 8 email v ≡ (
      ok (
          respond 200
            (already_submitted job_id (new_job show 1000 7 email_complete.type_name "k1" email))),
      v,
    ))
submit_job_twice_example =
    submit_job_twice show 1000 2000 (some "PONG") (some "PONG") 7 8 email email "k1" empty_world
      (submit_job show 1000 (some "PONG") 7 email empty_world).1 email_complete email_complete refl
      refl refl

get_job_status-owner_example :
    (((get_job_status 7 0 (world_with waiting_job)).0 ≡ ok (respond 200 (job_found 0 waiting_job)))
      ↔ ((◌≡◌ {A = ℕ} 0 0)
          × (document 0 (world_with waiting_job) ≡ some waiting_job)
          × (waiting_job.user_id ≡ 7)))
    × ((get_job_status 7 0 (world_with waiting_job)).1 ≡ world_with waiting_job)
get_job_status-owner_example = get_job_status-owner 7 0 (world_with waiting_job) 0 waiting_job

cancel_job-honored_example :
    let w₁ = (cancel_job 5000 7 0 (world_with running_job)).1 in
    let w₂ = (finish_attempt "w1" 6000 0 running_job (ok (num 1)) w₁).1 in
    (d : Job) × (document 0 w₂ ≡ some d)
    × (d.status ≡ cancelled)
    × (d.locked_by ≡ none)
    × (d.result ≡ none)
cancel_job-honored_example =
    cancel_job-honored "w1" 0 running_job (world_with running_job) refl 5000 6000 (num 1) refl refl

abbrev failure : Error
failure = plain_error "SMTP server down"

cancel_job-outlived_example :
    let (r, w₁) = cancel_job 5000 7 0 (world_with running_job) in
    let w₂ = (finish_attempt "w1" 6000 0 running_job (threw failure) w₁).1 in
    (answer : Response) × (r ≡ ok answer)
    × (answer.status ≡ 202)
    × (d : Job) × (document 0 w₂ ≡ some d)
    × (d.status ≡ retrying)
    × (d.cancellation_requested ≡ true)
    × (memory.zscore 0 w₂.delayed ≡ some (6000 + compute_backoff_ms 1))
cancel_job-outlived_example =
    cancel_job-outlived "w1" 0 running_job (world_with running_job) refl 5000 6000 failure refl refl
      (omega arith) (λ e. cc) refl

cancel_job-promoted_example :
    let w₁ = (cancel_job 5000 7 0 (world_with retrying_job)).1 in
    let w₂ = (promote_job "w1" 6000 0 w₁).1 in
    (document 0 w₁ ≡ some (cancel_waiting 5000 retrying_job))
    × (document 0 w₂ ≡ some (promoted "w1" 6000 (cancel_waiting 5000 retrying_job)))
    × (memory.zscore 0 w₂.queue ≡ some (compute_score 5 6000))
cancel_job-promoted_example =
    cancel_job-promoted "w1" 0 retrying_job (world_with retrying_job) refl 5000 6000 refl refl
