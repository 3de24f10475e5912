-- ===== src/Lifecycle/Completion.antt =====
-- A job from its submission to its result (modules/jobs/jobs.controller.js, `submitJob`, then
-- worker/worker.js, `runLane`).
use ai_distributed_job_platf.Prelude.{
  ℕ, ◌+◌, ◌≡◌, refl, sym, ap, subst, ◌∙◌, inl, inr, String, Bool, true, false, Option, none, some,
  ok, ◌==◌, ==_iff, ==_refl, Bool-cases, if◌then◌else◌, arith,
}
use ai_distributed_job_platf.Models.Json.{Json}
use ai_distributed_job_platf.Models.Job.{Job, queued, completed}
use ai_distributed_job_platf.Services.{Services}
use ai_distributed_job_platf.Services.World.{World, document}
use ai_distributed_job_platf.Queue.{compute_score, claim_next_job}
use ai_distributed_job_platf.Queue.Claiming.{Claim, claim_next_job-Claim}
use ai_distributed_job_platf.Worker.Process.{
  Handlers, run_handler, claimed, start_attempt, process_job,
}
use ai_distributed_job_platf.Worker.Attempt.{start_attempt_lem, finish_attempt-completed}
use ai_distributed_job_platf.Worker.Loops.{lane_round}
use ai_distributed_job_platf.Jobs.{
  Submission, present, future, is_redis_healthy, new_job, respond, submitted, submitted_message,
}
use ai_distributed_job_platf.Jobs.Handlers.{submit_job}
use ai_distributed_job_platf.Jobs.Submit.{submit_job-Submitted}
use ai_distributed_job_platf.Lifecycle.{submission, operate}
use ai_distributed_job_platf.Lifecycle.Connection.{operate-Keeps}

-- A job that is done, with a result.
pub record Done (result : Json) (d : Job) : Type 0 where
  pub status : d.status ≡ completed
  pub brought : d.result ≡ some result
  pub attempts : d.attempts ≡ 1
  pub free : d.locked_by ≡ none

emptied :
    (here : Bool) (score : ℕ) → (if here then none else if here then some score else none) ≡ none
emptied true score = refl
emptied false score = refl

module _ ⦃s : Services⦄ (worker_id : String) (started settled : ℕ) (handlers : Handlers) where
  process_job-Done :
      (job_id : ℕ) (w : World) (job : Job) (result : Json)
      → document job_id w ≡ some job
      → job.attempts ≡ 0
      → job.cancellation_requested ≡ false
      → run_handler handlers (claimed worker_id started job) ≡ ok result
      → let w' = (process_job worker_id started settled handlers job_id w).1 in
        (d : Job) × (document job_id w' ≡ some d) × Done result d × (w'.queue ≡ w.queue)
  unfolding process_job
  process_job-Done job_id w job result here fresh wanted answers =
      let begun = start_attempt_lem worker_id started job_id w job here in
      let f =
        finish_attempt-completed worker_id settled job_id
          (start_attempt worker_id started job_id w).1 (claimed worker_id started job) begun.1 refl
          (claimed worker_id started job) result wanted in
      rw begun.0 (
        rw answers (
          _,
          f.1,
          record { status = refl; brought = refl; attempts = ap (λ n. n + 1) fresh; free = refl },
          f.3.queue ∙ begun.3.queue,
        ))

  -- A claim on a queue of one member takes it.
  lone-Claim :
      (job_id t : ℕ) (w : World)
      → w.redis_up ≡ true
      → ((n : ℕ) → s.zscore n w.queue ≡ (if job_id == n then some t else none))
      → (score : ℕ) × ((claim_next_job w).0 ≡ ok (some job_id))
        × Claim job_id score w (claim_next_job w).1
  lone-Claim job_id t w up alone = elim (claim_next_job-Claim w up) [
    | inl (nothing, empty) ↦ absurd (ground (arith, empty job_id, alone job_id, ==_refl job_id))
    | inr (m, score, told, claim) ↦ elim (Bool-cases (job_id == m)) [
      | inl same ↦
          let e : m ≡ job_id = sym ((==_iff job_id m).0 same) in
          (
            score,
            told ∙ ap (λ k. ok (some k)) e,
            subst (λ k. Claim k score w (claim_next_job w).1) e claim,
          )
      | inr apart ↦ absurd (ground (arith, claim.member, alone m))
    ]
  ]

  submit_up :
      (iso : ℕ → String) (now : ℕ) (pong : Option String) (user_id : ℕ) (r : Submission) (w : World)
      → (submit_job iso now pong user_id r w).1.redis_up ≡ w.redis_up
  unfolding operate
  submit_up iso now pong user_id r w = operate-Keeps (submission iso now pong user_id r) w

  module _ (iso : ℕ → String) (now : ℕ) (pong : Option String) (user_id : ℕ) (r : Submission)
      (type_name key : String) (typed : present r.type_name ≡ some type_name)
      (keyed : present r.idempotency_key ≡ some key) (healthy : is_redis_healthy pong ≡ true) where
    -- From end to end: a job that is submitted with a free key, and is not scheduled for the future,
    -- while Redis answers and the main queue is empty, is answered with 201 and its id; the next
    -- round of any lane takes it, and if its handler resolves, the job is then COMPLETED with that
    -- result after one attempt, without a lock, and the main queue is empty again.
    pub submit_job-lane_round :
        (w : World) (result : Json)
        → s.find_by_key key w.jobs ≡ none
        → w.redis_up ≡ true
        → future now r.scheduled_for ≡ none
        → ((n : ℕ) → s.zscore n w.queue ≡ none)
        → run_handler handlers (claimed worker_id started (new_job iso now user_id type_name key r))
          ≡ ok result
        → let (answer, v) = submit_job iso now pong user_id r w in
          let w' = (lane_round worker_id started settled handlers v).1 in
          (job_id : ℕ) × (answer
            ≡ ok (respond 201 (submitted (submitted_message none) job_id queued none)))
          × (d : Job) × (document job_id w' ≡ some d)
          × Done result d
          × ((n : ℕ) → s.zscore n w'.queue ≡ none)
    unfolding lane_round
    submit_job-lane_round w result free up due empty answers =
        let (job_id, told, sub) =
          submit_job-Submitted iso now pong user_id r type_name key typed keyed healthy w free up in
        let v = (submit_job iso now pong user_id r w).1 in
        let up' : v.redis_up ≡ true = submit_up iso now pong user_id r w ∙ up in
        let score = compute_score (new_job iso now user_id type_name key r).priority now in
        let alone : (n : ℕ) → s.zscore n v.queue ≡ (if job_id == n then some score else none) =
          λ n. sub.queue n ∙ rw (due, empty n) refl in
        let (least, taken, claim) = lone-Claim job_id score v up' alone in
        let new = new_job iso now user_id type_name key r in
        let u = (claim_next_job v).1 in
        let here : document job_id u ≡ some new =
          ap (s.find_by_id job_id) claim.same_jobs
          ∙ (sub.documents job_id ∙ rw (==_refl job_id) refl) in
        let (d, stored, is_done, queue) =
          process_job-Done job_id u new result here refl refl answers in
        (
          job_id,
          told ∙ rw due refl,
          d,
          rw taken stored,
          is_done,
          λ n. rw taken (
              ap (s.zscore n) queue
              ∙ (claim.removed n ∙ rw (alone n) (emptied (job_id == n) score))),
        )
