-- ===== src/Lifecycle.antt =====
-- What the platform promises of each job: a state machine, `◌⟶◌`, that knows nothing of documents and
-- queues, and how a state of the program shows at which of its places a job is. The operations here
-- are the handlers of modules/jobs/jobs.controller.js and the parts of worker/worker.js, each run
-- without others in between.
pub mod Moves
pub mod Submission
pub mod Cancellation
pub mod Attempts
pub mod Queues
pub mod Connection
pub mod Refinement
pub mod Completion
mod Tests
use ai_distributed_job_platf.Prelude.{
  ℕ, String, Bool, true, false, List, [], ◌∷◌, Option, none, some, Error, Outcome, ◌==◌,
}
use ai_distributed_job_platf.Models.Json.{Json}
use ai_distributed_job_platf.Models.Job.{
  Job, Status, queued, processing, completed, failed, retrying, dead_letter, cancelled,
}
use ai_distributed_job_platf.Services.{Services}
use ai_distributed_job_platf.Services.Redis.{is_member}
use ai_distributed_job_platf.Services.World.{World, M, pure, ◌>>=◌, document}
use ai_distributed_job_platf.Queue.{claim_next_job}
use ai_distributed_job_platf.Worker.{handle_failure}
use ai_distributed_job_platf.Worker.Process.{start_attempt, finish_attempt}
use ai_distributed_job_platf.Worker.Loops.{promote_ready_jobs}
use ai_distributed_job_platf.Jobs.{Submission as Request}
use ai_distributed_job_platf.Jobs.Handlers.{submit_job, cancel_job}

-- Where a job is: nowhere yet, ready for a worker, due later, with a worker, or done.
pub data Place : Type 0 where
  absent waiting delayed running ended : Place

-- What is done to a job: by its user, or by a worker that claims it, ends its attempt or finds it
-- due; or something that is done to another job.
pub data Action : Type 0 where
  submitting cancelling claiming ending promoting elsewhere : Action

infix 40 ◌─◌⟶◌ ◌─◌⟶*◌
-- How each action may move a job; that it leaves the job where it is, is always possible.
pub data ◌─◌⟶◌ : Place → Action → Place → Type 0 where
  submit : absent ─ submitting ⟶ waiting
  schedule : absent ─ submitting ⟶ delayed
  promote : delayed ─ promoting ⟶ waiting
  claim : waiting ─ claiming ⟶ running
  retry : running ─ ending ⟶ delayed
  finish : running ─ ending ⟶ ended
  withdraw : waiting ─ cancelling ⟶ ended
  withdraw_delayed : delayed ─ cancelling ⟶ ended
  stay : {p : Place} {a : Action} → p ─ a ⟶ p

pub data ◌─◌⟶*◌ : Place → List Action → Place → Type 0 where
  here : {p : Place} → p ─ [] ⟶* p
  next :
      {p q r : Place} {a : Action} {actions : List Action}
      → p ─ a ⟶ q
      → q ─ actions ⟶* r
      → p ─ (a ∷ actions) ⟶* r

abbrev pub is_locked : Option String → Bool
is_locked none = false
is_locked (some owner) = true

-- The place that a status, a lock, and the presence in the two queues show; `none` if they
-- contradict each other.
abbrev pub place_by_status : Status → Bool → Bool → Bool → Option Place
place_by_status queued false true false = some waiting
place_by_status queued false false true = some delayed
place_by_status retrying false false true = some delayed
place_by_status processing true false false = some running
place_by_status completed false false false = some ended
place_by_status failed false false false = some ended
place_by_status dead_letter false false false = some ended
place_by_status cancelled false false false = some ended
place_by_status _ _ _ _ = none

abbrev pub place_of : Option Job → Bool → Bool → Option Place
place_of none false false = some absent
place_of none _ _ = none
place_of (some job) in_queue in_delayed =
    place_by_status job.status (is_locked job.locked_by) in_queue in_delayed

pub data Operation : Type 0 where
  -- `POST /api/jobs` and `POST /api/jobs/:id/cancel`, with the arguments of their models.
  submission : (ℕ → String) → ℕ → Option String → ℕ → Request → Operation
  cancellation : ℕ → ℕ → ℕ → Operation
  -- A lane claims a job and starts it.
  take : String → ℕ → Operation
  -- An attempt ends, with the document that the worker has in memory.
  attempt_end : String → ℕ → ℕ → Job → Outcome Json → Operation
  -- A worker takes a job over whose lock the named owner held.
  recovery : String → ℕ → ℕ → Job → Error → String → Operation
  promotion : String → ℕ → Operation

-- An action on one job, as another sees it.
abbrev pub aimed : Action → Bool → Action
aimed a true = a
aimed a false = elsewhere

-- What an operation is to the job `n`.
abbrev pub action_of : ℕ → Operation → Action
action_of n (submission iso now pong user_id r) = submitting
action_of n (cancellation now user_id job_id) = aimed cancelling (job_id == n)
action_of n (take worker_id now) = claiming
action_of n (attempt_end worker_id now job_id job outcome) = aimed ending (job_id == n)
action_of n (recovery worker_id now job_id job err owner) = aimed ending (job_id == n)
action_of n (promotion worker_id now) = promoting

abbrev pub actions_of : ℕ → List Operation → List Action
actions_of n [] = []
actions_of n (op ∷ ops) = action_of n op ∷ actions_of n ops

module _ ⦃s : Services⦄ where
  abbrev pub place : ℕ → World → Option Place
  place n w =
      place_of (document n w) (is_member (s.zscore n w.queue)) (is_member (s.zscore n w.delayed))

  abbrev pub start_claimed : String → ℕ → Option ℕ → M (Option Job)
  start_claimed worker_id now none = pure none
  start_claimed worker_id now (some job_id) = start_attempt worker_id now job_id

  -- A round of `runLane` up to the handler.
  unfoldable pub take_job : String → ℕ → M (Option Job)
  take_job worker_id now = do job_id ← claim_next_job; start_claimed worker_id now job_id

  unfoldable pub operate : Operation → World → World
  operate (submission iso now pong user_id r) w = (submit_job iso now pong user_id r w).1
  operate (cancellation now user_id job_id) w = (cancel_job now user_id job_id w).1
  operate (take worker_id now) w = (take_job worker_id now w).1
  operate (attempt_end worker_id now job_id job outcome) w =
      (finish_attempt worker_id now job_id job outcome w).1
  operate (recovery worker_id now job_id job err owner) w =
      (handle_failure worker_id now job_id job err (some owner) w).1
  operate (promotion worker_id now) w = (promote_ready_jobs worker_id now w).1

  unfoldable pub operate_all : List Operation → World → World
  operate_all [] w = w
  operate_all (op ∷ ops) w = operate_all ops (operate op w)
