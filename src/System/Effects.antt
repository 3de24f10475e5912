-- ===== src/System/Effects.antt =====
-- What one step writes to the collection of jobs: at most one document, and how.
use ai_distributed_job_platf.Prelude.{
  ℕ, ◌≡◌, inl, inr, refl, sym, subst, String, Bool, true, false, Option, none, some, Error, leb,
  ◌||◌, Bool-cases,
}
use ai_distributed_job_platf.Models.Json.{Json}
use ai_distributed_job_platf.Models.Job.{
  Job, HistoryEntry, queued, processing, retrying, dead_letter, push_history, status_eq,
}
use ai_distributed_job_platf.Services.{Services}
use ai_distributed_job_platf.Services.World.{World, M, then_with}
use ai_distributed_job_platf.Queue.{remove_job_from_queue, remove_job_from_delayed_queue}
use ai_distributed_job_platf.Worker.{
  owner_eq, set_failed, set_completed, set_cancelled, is_non_retryable, finalize_job, give_up,
  schedule_retry, handle_failure, if_landed,
}
use ai_distributed_job_platf.Worker.Process.{start_found, finish_resolved}
use ai_distributed_job_platf.Worker.Loops.{promote_found}
use ai_distributed_job_platf.Jobs.{is_terminal}
use ai_distributed_job_platf.Jobs.Handlers.{
  submit_unless_found, cancel_in_queue, cancel_running, cancel_owned,
}
use ai_distributed_job_platf.System.{
  Step, submission, cancellation, claim, start, finish, failure, promotion_scan, promotion,
  redis_change, perform,
}
use ai_distributed_job_platf.System.Quiet.{
  push_job_to_queue-jobs, claim-jobs, scan-jobs, submit_created-jobs, retry-quiet,
}
use ai_distributed_job_platf.System.Changes.{
  IsProper, set_failed-IsProper, set_completed-IsProper, set_cancelled-IsProper,
  save_claim-IsProper, save_promoted-IsProper, cancel_waiting-IsProper,
  request_cancellation-IsProper,
}

module _ ⦃s : Services⦄ where
  -- The documents are the same, or one was changed properly, or a QUEUED job was created.
  pub data Effect (a : s.Jobs) (b : s.Jobs) : Type 0 where
    same : b ≡ a → Effect a b
    changed :
        (i : ℕ) (matches : Job → Bool) (change : Job → Job)
        → IsProper change
        → b ≡ (s.find_one_and_update i matches change a).1
        → Effect a b
    created : (job : Job) → job.status ≡ queued → b ≡ (s.create job a).1 → Effect a b

  -- What follows a write that landed and writes nothing more.
  if_landed-Effect :
      (a : s.Jobs) (k : M (Unit {0}))
      → ((v : World) → (k v).1.jobs ≡ v.jobs)
      → (o : Option Job) (v : World) → Effect a v.jobs
      → Effect a (if_landed o k v).1.jobs
  if_landed-Effect a k quiet none v h = h
  if_landed-Effect a k quiet (some d) v h = subst (Effect a) (sym (quiet v)) h

  finalize-Effect :
      (job_id : ℕ) (expected_owner : Option String) (updates : Job → Job) (e : HistoryEntry)
      (k : M (Unit {0})) (w : World)
      → IsProper (λ d. push_history e (updates d))
      → ((v : World) → (k v).1.jobs ≡ v.jobs)
      → Effect w.jobs
          (then_with
            (λ updated. if_landed updated k)
            (finalize_job job_id expected_owner updates e w).0
            (finalize_job job_id expected_owner updates e w).1).1.jobs
  unfolding finalize_job
  finalize-Effect job_id expected_owner updates e k w proper quiet =
      if_landed-Effect w.jobs k quiet _ _
        (changed job_id (λ d. owner_eq d.locked_by expected_owner) _ proper refl)

  finish-Effect :
      (worker_id : String) (now job_id : ℕ) (job : Job) (result : Json) (was_cancelled : Bool)
      (w : World)
      → Effect w.jobs (finish_resolved worker_id now job_id job result was_cancelled w).1.jobs
  unfolding finish_resolved
  finish-Effect worker_id now job_id job result true w =
      finalize-Effect job_id (some worker_id) set_cancelled _ _ w (set_cancelled-IsProper _)
        (λ v. refl)
  finish-Effect worker_id now job_id job result false w =
      finalize-Effect job_id (some worker_id) (set_completed result now) _ _ w
        (set_completed-IsProper result now _) (λ v. refl)

  failure-Effect :
      (worker_id : String) (now job_id : ℕ) (job : Job) (err : Error)
      (expected_owner : Option String) (w : World)
      → Effect w.jobs (handle_failure worker_id now job_id job err expected_owner w).1.jobs
  unfolding handle_failure give_up schedule_retry
  failure-Effect worker_id now job_id job err expected_owner w =
      elim (Bool-cases (leb job.max_attempts job.attempts || is_non_retryable err.retryable)) [
        | inl dead ↦ rw dead (
            finalize-Effect job_id expected_owner (set_failed dead_letter err.message) _ _ w
              (set_failed-IsProper dead_letter err.message _ (inr refl)) (λ v. refl))
        | inr retry ↦ rw retry (
            finalize-Effect job_id expected_owner (set_failed retrying err.message) _ _ w
              (set_failed-IsProper retrying err.message _ (inl refl))
              (λ v. retry-quiet job_id _ _ v (λ u. refl)))
      ]

  start-Effect :
      (worker_id : String) (now job_id : ℕ) (loaded : Option Job) (w : World)
      → Effect w.jobs (start_found worker_id now job_id loaded w).1.jobs
  start-Effect worker_id now job_id none w = same refl
  start-Effect worker_id now job_id (some job) w =
      changed job_id (λ _. true) _ (save_claim-IsProper worker_id now job) refl

  promotion-Effect :
      (worker_id : String) (now job_id : ℕ) (loaded : Option Job) (w : World)
      → Effect w.jobs (promote_found worker_id now job_id loaded w).1.jobs
  promotion-Effect worker_id now job_id none w = same refl
  promotion-Effect worker_id now job_id (some job) w =
      changed job_id (λ _. true) _ (save_promoted-IsProper worker_id now job)
        (push_job_to_queue-jobs now job_id job.priority _)

  cancel_in_queue-Effect :
      (now job_id : ℕ) (job : Job) (w : World)
      → Effect w.jobs (cancel_in_queue now job_id job w).1.jobs
  unfolding cancel_in_queue remove_job_from_queue remove_job_from_delayed_queue
  cancel_in_queue-Effect now job_id job w = elim (Bool-cases w.redis_up) [
    | inl up ↦ rw up (changed job_id (λ _. true) _ (cancel_waiting-IsProper now) refl)
    | inr down ↦ rw down (same refl)
  ]

  cancellation-Effect :
      (now job_id : ℕ) (job : Job) (w : World)
      → Effect w.jobs (cancel_owned now job_id job w).1.jobs
  unfolding cancel_owned cancel_running
  cancellation-Effect now job_id job w = elim (Bool-cases (is_terminal job.status)) [
    | inl over ↦ rw over (same refl)
    | inr open' ↦ elim (Bool-cases (status_eq job.status queued || status_eq job.status retrying)) [
      | inl waits ↦ rw (open', waits) (cancel_in_queue-Effect now job_id job w)
      | inr waits ↦ elim (Bool-cases (status_eq job.status processing)) [
        | inl runs ↦
            rw (open', waits, runs)
              (changed job_id (λ _. true) _ (request_cancellation-IsProper now job.status) refl)
        | inr rest ↦ rw (open', waits, rest) (same refl)
      ]
    ]
  ]

  submission-Effect :
      (now : ℕ) (job : Job) (found : Option (ℕ × Job)) (w : World)
      → job.status ≡ queued
      → Effect w.jobs (submit_unless_found now job found w).1.jobs
  submission-Effect now job (some e) w waits = same refl
  submission-Effect now job none w waits =
      created job waits (submit_created-jobs now job (s.create job w.jobs).0 _)

  -- Every step writes at most one document.
  pub perform-Effect : (step : Step) (w : World) → Effect w.jobs (perform step w).jobs
  unfolding perform
  perform-Effect (submission iso now user_id type_name key r found) w =
      submission-Effect now _ found w refl
  perform-Effect (cancellation now job_id job) w = cancellation-Effect now job_id job w
  perform-Effect claim w = same (claim-jobs w)
  perform-Effect (start worker_id now job_id loaded) w = start-Effect worker_id now job_id loaded w
  perform-Effect (finish worker_id now job_id job result was_cancelled) w =
      finish-Effect worker_id now job_id job result was_cancelled w
  perform-Effect (failure worker_id now job_id job err expected_owner) w =
      failure-Effect worker_id now job_id job err expected_owner w
  perform-Effect (promotion_scan now) w = same (scan-jobs now w)
  perform-Effect (promotion worker_id now job_id loaded) w =
      promotion-Effect worker_id now job_id loaded w
  perform-Effect (redis_change up) w = same refl
