-- ===== src/Worker/Endings.antt =====
-- That a job comes to an end, whatever its handlers do (worker/worker.js, `processJob` and
-- `handleFailure` together).
use ai_distributed_job_platf.Prelude.{
  ℕ, zero, suc, ◌+◌, ◌≤◌, ◌<◌, ◌≡◌, ◌⊎◌, inl, inr, refl, ap, ◌∙◌, String, Bool, true, false, Option,
  none, some, Outcome, ok, threw, max, str_eq_iff, if◌then◌else◌, Bool-cases, arith,
}
use ai_distributed_job_platf.Models.Json.{Json}
use ai_distributed_job_platf.Models.Job.{
  Job, Status, completed, retrying, dead_letter, cancelled, status_eq,
}
use ai_distributed_job_platf.Services.{Services}
use ai_distributed_job_platf.Services.World.{World, document}
use ai_distributed_job_platf.Worker.{owner_eq}
use ai_distributed_job_platf.Worker.Process.{
  claimed, start_attempt, finish_attempt, process_job, Handlers, run_handler,
}
use ai_distributed_job_platf.Worker.Attempt.{
  start_attempt_lem, finish_attempt-completed, finish_attempt-cancelled,
}
use ai_distributed_job_platf.Worker.Failure.{handle_failure-dead_letter, handle_failure-retry}
use ai_distributed_job_platf.Worker.Decisions.{gives_up-cases}

-- The worker does not touch the job again.
abbrev pub IsOver : Status → Type 0
IsOver status = (status ≡ completed) ⊎ ((status ≡ dead_letter) ⊎ (status ≡ cancelled))

-- What an attempt makes of a job: it is over, or it is RETRYING and has attempts left.
pub record Attempted (job e : Job) : Type 0 where
  pub attempts : e.attempts ≡ job.attempts + 1
  pub max_attempts : e.max_attempts ≡ job.max_attempts
  pub free : e.locked_by ≡ none
  pub fate : IsOver e.status ⊎ ((e.status ≡ retrying) × (e.attempts < e.max_attempts))

abbrev pub is_retrying : Option Job → Bool
is_retrying none = false
is_retrying (some job) = status_eq job.status retrying

over_not_retrying : (job : Job) → IsOver job.status → is_retrying (some job) ≡ false
over_not_retrying job h = ground arith

module _ ⦃s : Services⦄ (worker_id : String) (job_id : ℕ) where
  -- The end of an attempt whose handler settled in any way.
  finish_attempt-Attempted :
      (later : ℕ) (w : World) (job : Job) (d : Job) (outcome : Outcome Json)
      → document job_id w ≡ some d
      → d.locked_by ≡ some worker_id
      → d.attempts ≡ job.attempts + 1
      → d.max_attempts ≡ job.max_attempts
      → w.redis_up ≡ true
      → (e : Job) × (document job_id (finish_attempt worker_id later job_id d outcome w).1 ≡ some e)
        × Attempted job e
        × ((finish_attempt worker_id later job_id d outcome w).1.redis_up ≡ true)
  unfolding finish_attempt
  finish_attempt-Attempted later w job d (ok result) here locked count most up =
      elim (Bool-cases d.cancellation_requested) [
        | inl unwanted ↦
            let f =
              finish_attempt-cancelled worker_id later job_id w d here locked d result unwanted in
            (
              _,
              f.1,
              record {
                attempts = count;
                max_attempts = most;
                free = refl;
                fate = inl (inr (inr refl));
              },
              f.3.redis_up ∙ up,
            )
        | inr wanted ↦
            let f =
              finish_attempt-completed worker_id later job_id w d here locked d result wanted in
            (
              _,
              f.1,
              record { attempts = count; max_attempts = most; free = refl; fate = inl (inl refl) },
              f.3.redis_up ∙ up,
            )
      ]
  finish_attempt-Attempted later w job d (threw err) here locked count most up =
      let owner : owner_eq d.locked_by (some worker_id) ≡ true =
        rw locked ((str_eq_iff worker_id worker_id).1 refl) in
      elim (gives_up-cases d err) [
        | inl dead ↦
            let f =
              handle_failure-dead_letter worker_id later job_id d err (some worker_id) w d here
                owner dead in
            (
              _,
              f.1,
              record {
                attempts = count;
                max_attempts = most;
                free = refl;
                fate = inl (inr (inl refl));
              },
              f.3.redis_up ∙ up,
            )
        | inr (left, retryable) ↦
            let f =
              handle_failure-retry worker_id later job_id d err (some worker_id) w d here owner left
                retryable up in
            (
              _,
              f.1,
              record {
                attempts = count;
                max_attempts = most;
                free = refl;
                fate = inr (refl, left);
              },
              f.4 ∙ up,
            )
      ]

  process_job-Attempted :
      (now later : ℕ) (handlers : Handlers) (w : World) (job : Job)
      → document job_id w ≡ some job
      → w.redis_up ≡ true
      → (e : Job) × (document job_id (process_job worker_id now later handlers job_id w).1 ≡ some e)
        × Attempted job e
        × ((process_job worker_id now later handlers job_id w).1.redis_up ≡ true)
  unfolding process_job
  process_job-Attempted now later handlers w job here up =
      let started = start_attempt_lem worker_id now job_id w job here in
      rw started.0 (
        finish_attempt-Attempted later (start_attempt worker_id now job_id w).1 job
          (claimed worker_id now job) (run_handler handlers (claimed worker_id now job)) started.1
          refl refl refl (started.3.redis_up ∙ up))

  -- The job is processed again as long as it is RETRYING, on fuel. The script gives for each attempt
  -- the times at which it starts and ends, and what the handlers do in it.
  unfoldable pub process_until_over : (ℕ → ℕ × ℕ × Handlers) → ℕ → World → World
  process_until_over script zero w = w
  process_until_over script (suc fuel) w =
      let (now, later, handlers) = script fuel in
      let w' = (process_job worker_id now later handlers job_id w).1 in
      let rest = process_until_over script fuel w' in
      if is_retrying (document job_id w') then rest else w'

  -- When Redis answers, a job that is processed whenever it is RETRYING comes to an end, whatever
  -- its handlers do in each attempt and whenever these are: with fuel for as many attempts as it has
  -- left, and one at least, it ends COMPLETED, DEAD_LETTER or CANCELLED, unlocked, after no more than
  -- maxAttempts attempts, or one more than before if none was left.
  pub process_until_over-IsOver :
      (script : ℕ → ℕ × ℕ × Handlers) (fuel : ℕ) (w : World) (job : Job)
      → document job_id w ≡ some job
      → w.redis_up ≡ true
      → 1 ≤ fuel
      → job.max_attempts ≤ job.attempts + fuel
      → (e : Job) × (document job_id (process_until_over script fuel w) ≡ some e)
        × IsOver e.status
        × (e.locked_by ≡ none)
        × (e.attempts ≤ max job.max_attempts (job.attempts + 1))
  unfolding process_until_over
  process_until_over-IsOver script zero w job here up some_fuel enough = absurd (omega arith)
  process_until_over-IsOver script (suc fuel) w job here up some_fuel enough =
      let (now, later, handlers) = script fuel in
      let (e, stored, a, up') = process_job-Attempted now later handlers w job here up in
      elim a.fate [
        | inl over ↦
            let stop = ap is_retrying stored ∙ over_not_retrying e over in
            rw stop (e, stored, over, a.free, ground (arith, a.attempts))
        | inr (again, left) ↦
            let go : is_retrying (some e) ≡ true = ground arith in
            let (f, stored', over, free, count) =
              process_until_over-IsOver script fuel
                (process_job worker_id now later handlers job_id w).1 e stored up'
                (omega (arith, a.attempts, a.max_attempts))
                (omega (arith, a.attempts, a.max_attempts)) in
            rw (ap is_retrying stored ∙ go)
              (f, stored', over, free, ground (arith, a.attempts, a.max_attempts))
      ]
