-- ===== src/Lifecycle/Connection.antt =====
-- That the operations of the API and of the worker do not change whether Redis answers.
use ai_distributed_job_platf.Prelude.{
  ℕ, ◌≡◌, refl, ◌∙◌, String, Bool, true, false, List, [], ◌∷◌, Option, none, some, Error, Outcome,
  ok, threw, leb, ◌||◌, Bool-cases, inl, inr, ◌==◌, All,
}
use ai_distributed_job_platf.Models.Json.{Json}
use ai_distributed_job_platf.Models.Job.{Job, queued, processing, retrying, status_eq}
use ai_distributed_job_platf.Services.{Services}
use ai_distributed_job_platf.Services.World.{World, M, answered, ◌>>=◌}
use ai_distributed_job_platf.Services.Loops.{then_with-keeps, for_each-keeps}
use ai_distributed_job_platf.Queue.{
  push_job_to_queue, push_to_delayed_queue, remove_job_from_queue, remove_job_from_delayed_queue,
  claim_next_job, promote_due_delayed_jobs,
}
use ai_distributed_job_platf.Worker.{
  is_non_retryable, finalize_job, if_landed, give_up, schedule_retry, handle_failure,
}
use ai_distributed_job_platf.Worker.Process.{
  start_found, start_attempt, finish_resolved, finish_attempt, is_cancellation_requested,
}
use ai_distributed_job_platf.Worker.Loops.{promote_found, promote_job, promote_ready_jobs}
use ai_distributed_job_platf.Jobs.{
  Submission as Request, is_redis_healthy, is_terminal, present, new_job,
}
use ai_distributed_job_platf.Jobs.Handlers.{
  enqueue, submit_created, submit_unless_found, submit_complete, submit_fields, submit_job,
  for_owner, cancel_in_queue, cancel_running, cancel_owned, cancel_job,
}
use ai_distributed_job_platf.Lifecycle.{
  Operation, submission, cancellation, take, attempt_end, recovery, promotion, start_claimed,
  take_job, operate,
}

module _ ⦃s : Services⦄ where
  abbrev Keeps : {A : Type 0} → M A → Type 0
  Keeps m = (w : World) → (m w).1.redis_up ≡ w.redis_up

  answered-Keeps :
      {A : Type 0} (up : Bool) (r : A × World) (w : World)
      → r.1.redis_up ≡ w.redis_up
      → (answered up r w).1.redis_up ≡ w.redis_up
  answered-Keeps true r w e = e
  answered-Keeps false r w e = refl

  then-Keeps :
      {A B : Type 0} (m : M A) (k : A → M B) → Keeps m → ((a : A) → Keeps (k a)) → Keeps (m >>= k)
  then-Keeps m k first rest w =
      then_with-keeps (λ u. u.redis_up ≡ w.redis_up) k (m w).0 (m w).1 (λ a v e. rest a v ∙ e)
        (first w)

  enqueue-Keeps :
      (now job_id : ℕ) (job : Job) (time : Option ℕ) → Keeps (enqueue now job_id job time)
  unfolding push_job_to_queue push_to_delayed_queue
  enqueue-Keeps now job_id job none w = answered-Keeps w.redis_up _ w refl
  enqueue-Keeps now job_id job (some time) w = answered-Keeps w.redis_up _ w refl

  created-Keeps : (now : ℕ) (job : Job) (id : Option ℕ) → Keeps (submit_created now job id)
  created-Keeps now job none w = refl
  created-Keeps now job (some job_id) w =
      then-Keeps (enqueue now job_id job job.scheduled_for) _
        (enqueue-Keeps now job_id job job.scheduled_for) (λ _ v. refl) w

  unless_found-Keeps :
      (now : ℕ) (job : Job) (o : Option (ℕ × Job)) → Keeps (submit_unless_found now job o)
  unless_found-Keeps now job none w = created-Keeps now job (s.create job w.jobs).0 _
  unless_found-Keeps now job (some found) w = refl

  complete-Keeps :
      (now : ℕ) (pong : Option String) (job : Job) → Keeps (submit_complete now pong job)
  complete-Keeps now pong job w = elim (Bool-cases (is_redis_healthy pong)) [
    | inl healthy ↦
        rw healthy (unless_found-Keeps now job (s.find_by_key job.idempotency_key w.jobs) w)
    | inr ill ↦ rw ill refl
  ]

  fields-Keeps :
      (iso : ℕ → String) (now : ℕ) (pong : Option String) (user_id : ℕ) (r : Request)
      (type_name key : Option String)
      → Keeps (submit_fields iso now pong user_id r type_name key)
  fields-Keeps iso now pong user_id r (some type_name) (some key) w =
      complete-Keeps now pong (new_job iso now user_id type_name key r) w
  fields-Keeps iso now pong user_id r (some type_name) none w = refl
  fields-Keeps iso now pong user_id r none key w = refl

  in_queue-Keeps : (now job_id : ℕ) (job : Job) → Keeps (cancel_in_queue now job_id job)
  unfolding cancel_in_queue remove_job_from_queue remove_job_from_delayed_queue
  in_queue-Keeps now job_id job =
      then-Keeps (remove_job_from_queue job_id) _ (λ w. answered-Keeps w.redis_up _ w refl)
        (λ _.
          then-Keeps (remove_job_from_delayed_queue job_id) _
            (λ w. answered-Keeps w.redis_up _ w refl) (λ _ w. refl))

  cancel_owned-Keeps : (now job_id : ℕ) (job : Job) → Keeps (cancel_owned now job_id job)
  unfolding cancel_owned cancel_running
  cancel_owned-Keeps now job_id job w = elim (Bool-cases (is_terminal job.status)) [
    | inl over ↦ rw over refl
    | inr not_over ↦
        elim (Bool-cases (status_eq job.status queued || status_eq job.status retrying)) [
          | inl waits ↦ rw (not_over, waits) (in_queue-Keeps now job_id job w)
          | inr settled ↦ elim (Bool-cases (status_eq job.status processing)) [
            | inl runs ↦ rw (not_over, settled, runs) refl
            | inr none_of_these ↦ rw (not_over, settled, none_of_these) refl
          ]
        ]
  ]

  for_owner-Keeps :
      (now user_id job_id : ℕ) (o : Option Job)
      → Keeps (for_owner user_id job_id (cancel_owned now job_id) o)
  for_owner-Keeps now user_id job_id none w = refl
  for_owner-Keeps now user_id job_id (some job) w = elim (Bool-cases (job.user_id == user_id)) [
    | inl own ↦ rw own (cancel_owned-Keeps now job_id job w)
    | inr foreign ↦ rw foreign refl
  ]

  landed-Keeps : (o : Option Job) (k : M (Unit {0})) → Keeps k → Keeps (if_landed o k)
  landed-Keeps none k keeps w = refl
  landed-Keeps (some d) k keeps w = keeps w

  failure-Keeps :
      (worker_id : String) (now job_id : ℕ) (job : Job) (err : Error) (owner : Option String)
      → Keeps (handle_failure worker_id now job_id job err owner)
  unfolding handle_failure give_up schedule_retry finalize_job push_to_delayed_queue
  failure-Keeps worker_id now job_id job err owner w =
      elim (Bool-cases (leb job.max_attempts job.attempts || is_non_retryable err.retryable)) [
        | inl dead ↦ rw dead (landed-Keeps _ _ (λ v. refl) _)
        | inr again ↦ rw again (
            landed-Keeps _ _
              (then-Keeps (push_to_delayed_queue job_id _) _
                (λ v. answered-Keeps v.redis_up _ v refl) (λ _ v. refl))
              _)
      ]

  resolved-Keeps :
      (worker_id : String) (now job_id : ℕ) (job : Job) (result : Json) (unwanted : Bool)
      → Keeps (finish_resolved worker_id now job_id job result unwanted)
  unfolding finish_resolved finalize_job
  resolved-Keeps worker_id now job_id job result true w = landed-Keeps _ _ (λ v. refl) _
  resolved-Keeps worker_id now job_id job result false w = landed-Keeps _ _ (λ v. refl) _

  finish-Keeps :
      (worker_id : String) (now job_id : ℕ) (job : Job) (outcome : Outcome Json)
      → Keeps (finish_attempt worker_id now job_id job outcome)
  unfolding finish_attempt
  finish-Keeps worker_id now job_id job (ok result) w =
      resolved-Keeps worker_id now job_id job result
        (is_cancellation_requested (s.find_by_id job_id w.jobs)) w
  finish-Keeps worker_id now job_id job (threw err) w =
      failure-Keeps worker_id now job_id job err (some worker_id) w

  start_found-Keeps :
      (worker_id : String) (now job_id : ℕ) (o : Option Job)
      → Keeps (start_found worker_id now job_id o)
  start_found-Keeps worker_id now job_id none w = refl
  start_found-Keeps worker_id now job_id (some job) w = refl

  start_claimed-Keeps :
      (worker_id : String) (now : ℕ) (o : Option ℕ) → Keeps (start_claimed worker_id now o)
  unfolding start_attempt
  start_claimed-Keeps worker_id now none w = refl
  start_claimed-Keeps worker_id now (some job_id) w =
      start_found-Keeps worker_id now job_id (s.find_by_id job_id w.jobs) w

  take-Keeps : (worker_id : String) (now : ℕ) → Keeps (take_job worker_id now)
  unfolding take_job claim_next_job
  take-Keeps worker_id now =
      then-Keeps claim_next_job (start_claimed worker_id now)
        (λ w. answered-Keeps w.redis_up _ w refl) (start_claimed-Keeps worker_id now)

  promote_found-Keeps :
      (worker_id : String) (now job_id : ℕ) (o : Option Job)
      → Keeps (promote_found worker_id now job_id o)
  unfolding push_job_to_queue
  promote_found-Keeps worker_id now job_id none w = refl
  promote_found-Keeps worker_id now job_id (some job) w = answered-Keeps w.redis_up _ _ refl

  promote-Keeps : (worker_id : String) (now : ℕ) → Keeps (promote_ready_jobs worker_id now)
  unfolding promote_ready_jobs promote_job promote_due_delayed_jobs
  promote-Keeps worker_id now =
      then-Keeps (promote_due_delayed_jobs now) _ (λ w. answered-Keeps w.redis_up _ w refl)
        (λ ids w.
          for_each-keeps (λ v. v.redis_up ≡ w.redis_up) (λ _. Unit {0}) (promote_job worker_id now)
            (λ id v _ e. promote_found-Keeps worker_id now id (s.find_by_id id v.jobs) v ∙ e) ids w
            (all ids) refl)
    where
      all : (ids : List ℕ) → All (λ _. Unit {0}) ids
      all [] = tt
      all (id ∷ ids) = (tt, all ids)

  pub operate-Keeps : (op : Operation) (w : World) → (operate op w).redis_up ≡ w.redis_up
  unfolding operate submit_job cancel_job
  operate-Keeps (submission iso now pong user_id r) w =
      fields-Keeps iso now pong user_id r (present r.type_name) (present r.idempotency_key) w
  operate-Keeps (cancellation now user_id job_id) w =
      for_owner-Keeps now user_id job_id (s.find_by_id job_id w.jobs) w
  operate-Keeps (take worker_id now) w = take-Keeps worker_id now w
  operate-Keeps (attempt_end worker_id now job_id job outcome) w =
      finish-Keeps worker_id now job_id job outcome w
  operate-Keeps (recovery worker_id now job_id job err owner) w =
      failure-Keeps worker_id now job_id job err (some owner) w
  operate-Keeps (promotion worker_id now) w = promote-Keeps worker_id now w
