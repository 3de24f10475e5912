-- ===== src/System.antt =====
-- All processes together: the API processes (modules/jobs/jobs.controller.js) and the workers
-- (worker/worker.js) act on the same documents and queues in any order. A step is the code between
-- two points at which others may act; what it has read before, such as a document, is part of the
-- step and may be of any age.
pub mod Changes
pub mod Quiet
pub mod Effects
pub mod Documents
pub mod Invariants
pub mod Liveness
mod Tests
use ai_distributed_job_platf.Prelude.{ℕ, String, Bool, List, [], ◌∷◌, Option, Error, Outcome}
use ai_distributed_job_platf.Models.Json.{Json}
use ai_distributed_job_platf.Models.Job.{Job}
use ai_distributed_job_platf.Services.{Services}
use ai_distributed_job_platf.Services.World.{World}
use ai_distributed_job_platf.Queue.{claim_next_job, promote_due_delayed_jobs}
use ai_distributed_job_platf.Worker.{handle_failure}
use ai_distributed_job_platf.Worker.Process.{start_found, finish_resolved}
use ai_distributed_job_platf.Worker.Loops.{promote_found}
use ai_distributed_job_platf.Jobs.{Submission, new_job}
use ai_distributed_job_platf.Jobs.Handlers.{submit_unless_found, cancel_owned}

pub data Step : Type 0 where
  -- `submitJob` after its lookup of the key: what `toISOString` gives, the time, the user, the type,
  -- the key, the rest of the request, and what the lookup found.
  submission : (ℕ → String) → ℕ → ℕ → String → String → Submission → Option (ℕ × Job) → Step
  -- `cancelJob` after it has loaded the job and checked its user.
  cancellation : ℕ → ℕ → Job → Step
  claim : Step
  -- `processJob` from the loaded document to its handler.
  start : String → ℕ → ℕ → Option Job → Step
  -- The same after the handler has resolved and the checkpoint has read the flag.
  finish : String → ℕ → ℕ → Job → Json → Bool → Step
  -- `handleFailure`, after a failed attempt or for a job that a recovery scan has found.
  failure : String → ℕ → ℕ → Job → Error → Option String → Step
  -- `promoteReadyJobs`: the removal of the due ids, and the body of its loop for a loaded document.
  promotion_scan : ℕ → Step
  promotion : String → ℕ → ℕ → Option Job → Step
  -- Redis goes away or comes back.
  redis_change : Bool → Step

module _ ⦃s : Services⦄ where
  unfoldable pub perform : Step → World → World
  perform (submission iso now user_id type_name key r found) w =
      (submit_unless_found now (new_job iso now user_id type_name key r) found w).1
  perform (cancellation now job_id job) w = (cancel_owned now job_id job w).1
  perform claim w = (claim_next_job w).1
  perform (start worker_id now job_id loaded) w = (start_found worker_id now job_id loaded w).1
  perform (finish worker_id now job_id job result was_cancelled) w =
      (finish_resolved worker_id now job_id job result was_cancelled w).1
  perform (failure worker_id now job_id job err expected_owner) w =
      (handle_failure worker_id now job_id job err expected_owner w).1
  perform (promotion_scan now) w = (promote_due_delayed_jobs now w).1
  perform (promotion worker_id now job_id loaded) w =
      (promote_found worker_id now job_id loaded w).1
  perform (redis_change up) w = record w { redis_up = up }

  unfoldable pub run : List Step → World → World
  run [] w = w
  run (step ∷ steps) w = run steps (perform step w)
