-- ===== src/Worker/Unknown.antt =====
-- Jobs of a type that has no handler of its own (worker/jobHandlers/index.js, `getHandler`, as
-- worker/worker.js calls it).
use ai_distributed_job_platf.Prelude.{
  ℕ, ◌+◌, ◌≡◌, refl, ◌∙◌, inr, String, true, false, some, ok, threw, str_eq_iff, arith,
}
use ai_distributed_job_platf.Models.Json.{Json}
use ai_distributed_job_platf.Models.Job.{Job, completed, dead_letter}
use ai_distributed_job_platf.Services.{Services}
use ai_distributed_job_platf.Services.World.{World, document}
use ai_distributed_job_platf.JobHandlers.{
  is_key, job_handlers, object_prototype, no_handler, get_handler,
}
use ai_distributed_job_platf.Worker.Process.{
  claimed, start_attempt, finish_attempt, process_job, Handlers, run_handler,
}
use ai_distributed_job_platf.Worker.Attempt.{start_attempt_lem, finish_attempt-completed}
use ai_distributed_job_platf.Worker.Failure.{handle_failure-dead_letter}

get_handler-none :
    (type_name : String)
    → is_key type_name job_handlers ≡ false
    → is_key type_name object_prototype ≡ false
    → get_handler type_name ≡ threw (no_handler type_name)
unfolding get_handler
get_handler-none type_name own inherited = rw (own, inherited)

get_handler-inherited :
    (type_name : String)
    → is_key type_name object_prototype ≡ true
    → get_handler type_name ≡ ok type_name
unfolding get_handler
get_handler-inherited type_name inherited = ground arith

module _ ⦃s : Services⦄ (worker_id : String) (handlers : Handlers) (now later job_id : ℕ)
    (w : World) (job : Job) (here : document job_id w ≡ some job) where
  -- A job whose type is a property neither of the table of handlers nor of `Object.prototype` is
  -- DEAD_LETTER after its first attempt, with an error that says so, however many attempts it has
  -- left; both queues stay as they were.
  process_job-unknown :
      is_key job.type_name job_handlers ≡ false
      → is_key job.type_name object_prototype ≡ false
      → let w' = (process_job worker_id now later handlers job_id w).1 in
        (d : Job) × (document job_id w' ≡ some d)
        × (d.status ≡ dead_letter)
        × (d.attempts ≡ job.attempts + 1)
        × (d.error ≡ some (no_handler job.type_name).message)
        × (w'.queue ≡ w.queue)
        × (w'.delayed ≡ w.delayed)
  unfolding process_job finish_attempt run_handler no_handler
  process_job-unknown own inherited =
      let started = start_attempt_lem worker_id now job_id w job here in
      let err = no_handler job.type_name in
      let f =
        handle_failure-dead_letter worker_id later job_id (claimed worker_id now job) err
          (some worker_id) (start_attempt worker_id now job_id w).1 (claimed worker_id now job)
          started.1 ((str_eq_iff worker_id worker_id).1 refl) (inr refl) in
      rw started.0 (
        rw (get_handler-none job.type_name own inherited)
          (_, f.1, refl, refl, refl, f.3.queue ∙ started.3.queue, f.3.delayed ∙ started.3.delayed))

  -- A job whose type is the name of a property that every object inherits, such as "constructor", is
  -- not refused: what is found under that name is run on the payload, and if it answers with a
  -- value and no cancellation was requested, the job is COMPLETED with it.
  pub process_job-inherited :
      (result : Json)
      → is_key job.type_name object_prototype ≡ true
      → handlers job.type_name job.payload ≡ some (ok result)
      → job.cancellation_requested ≡ false
      → let w' = (process_job worker_id now later handlers job_id w).1 in
        (d : Job) × (document job_id w' ≡ some d)
        × (d.status ≡ completed)
        × (d.result ≡ some result)
  unfolding process_job run_handler
  process_job-inherited result inherited answers wanted =
      let started = start_attempt_lem worker_id now job_id w job here in
      let f =
        finish_attempt-completed worker_id later job_id (start_attempt worker_id now job_id w).1
          (claimed worker_id now job) started.1 refl (claimed worker_id now job) result wanted in
      rw started.0
        (rw (get_handler-inherited job.type_name inherited) (rw answers (_, f.1, refl, refl)))
