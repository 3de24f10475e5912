-- ===== src/Lifecycle/Tests.antt =====
-- Runs of the operations on the states of `Samples`.
use ai_distributed_job_platf.Prelude.{
  ℕ, ◌≡◌, refl, List, [], ◌∷◌, none, some, ok, any, show, plain_error, threw, arith,
}
use ai_distributed_job_platf.Models.Json.{num}
use ai_distributed_job_platf.Models.Job.{Job, queued}
use ai_distributed_job_platf.Services.Memory.{memory}
use ai_distributed_job_platf.Samples.{waiting_job, empty_world}
use ai_distributed_job_platf.Services.World.{document}
use ai_distributed_job_platf.JobHandlers.{get_handler}
use ai_distributed_job_platf.Worker.Process.{claimed, Handlers, run_handler}
use ai_distributed_job_platf.Worker.Loops.{lane_round}
use ai_distributed_job_platf.Jobs.Handlers.{submit_job}
use ai_distributed_job_platf.Lifecycle.Completion.{Done, submit_job-lane_round}
use ai_distributed_job_platf.Jobs.{
  Submission as Request, respond, submitted, submitted_message, is_redis_healthy, new_job,
}
use ai_distributed_job_platf.Lifecycle.{
  Place, absent, actions_of, ◌─◌⟶*◌, place, Operation, submission, cancellation, take, attempt_end,
  promotion, operate_all,
}
use ai_distributed_job_platf.Lifecycle.Refinement.{operate_all_refines}

abbrev request : Request
request = record {
  type_name = some "send-email";
  payload = none;
  priority = none;
  idempotency_key = some "k1";
  timeout_ms = none;
  max_attempts = none;
  scheduled_for = none;
}

-- A job is submitted, taken, fails, is promoted and taken again, and completes; a cancellation comes
-- too late.
abbrev operations : List Operation
operations =
    submission show 1000 (some "PONG") 7 request
    ∷ take "w1" 1500
    ∷ attempt_end "w1" 2000 0 (claimed "w1" 1500 waiting_job) (threw (plain_error "down"))
    ∷ promotion "w1" 9000
    ∷ take "w1" 9000
    ∷ attempt_end "w1" 9500 0 (claimed "w1" 9000 waiting_job) (ok (num 1))
    ∷ cancellation 9900 7 0
    ∷ []

operate_all_refines_example :
    (q : Place) × (place 0 (operate_all operations empty_world) ≡ some q)
    × (absent ─ (actions_of 0 operations) ⟶* q)
operate_all_refines_example = operate_all_refines operations empty_world 0 absent refl refl

abbrev sends : Handlers
sends name payload = some (ok (num 1))

no_one_waits : (n : ℕ) → memory.zscore n empty_world.queue ≡ none
no_one_waits n = ground arith

runs_send_email :
    run_handler sends (claimed "w1" 1500 (new_job show 1000 7 "send-email" "k1" request))
    ≡ ok (num 1)
unfolding run_handler get_handler any
runs_send_email = refl

submit_job-lane_round_example :
    let (answer, v) = submit_job show 1000 (some "PONG") 7 request empty_world in
    let w' = (lane_round "w1" 1500 2000 sends v).1 in
    (job_id : ℕ) × (answer
      ≡ ok (respond 201 (submitted (submitted_message none) job_id queued none)))
    × (d : Job) × (document job_id w' ≡ some d)
    × Done (num 1) d
    × ((n : ℕ) → memory.zscore n w'.queue ≡ none)
submit_job-lane_round_example =
    submit_job-lane_round "w1" 1500 2000 sends show 1000 (some "PONG") 7 request "send-email" "k1"
      refl refl (unfold is_redis_healthy in refl) empty_world (num 1) refl refl refl no_one_waits
      runs_send_email
