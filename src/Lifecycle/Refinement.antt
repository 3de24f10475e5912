-- ===== src/Lifecycle/Refinement.antt =====
-- The handlers and the worker (modules/jobs/jobs.controller.js, worker/worker.js) against the state
-- machine of a job.
use ai_distributed_job_platf.Prelude.{ℕ, ◌≡◌, ◌∙◌, true, List, [], ◌∷◌, some}
use ai_distributed_job_platf.Services.{Services}
use ai_distributed_job_platf.Services.World.{World}
use ai_distributed_job_platf.Lifecycle.{
  Place, action_of, actions_of, ◌─◌⟶*◌, here, next, place, Operation, submission, cancellation,
  take, attempt_end, recovery, promotion, operate, operate_all,
}
use ai_distributed_job_platf.Lifecycle.Moves.{Moves}
use ai_distributed_job_platf.Lifecycle.Submission.{submission-Moves}
use ai_distributed_job_platf.Lifecycle.Cancellation.{cancellation-Moves}
use ai_distributed_job_platf.Lifecycle.Attempts.{finish-Moves, failure-Moves}
use ai_distributed_job_platf.Lifecycle.Queues.{take-Moves, promotion-Moves}
use ai_distributed_job_platf.Lifecycle.Connection.{operate-Keeps}

module _ ⦃s : Services⦄ where
  operate-Moves :
      (op : Operation) (n : ℕ) (w : World) (p : Place)
      → place n w ≡ some p
      → w.redis_up ≡ true
      → Moves (action_of n op) n w (operate op w) p
  unfolding operate
  operate-Moves (submission iso now pong user_id r) n w p at up =
      submission-Moves iso now pong user_id r w n p at up
  operate-Moves (cancellation now user_id job_id) n w p at up =
      cancellation-Moves now user_id job_id w n p at up
  operate-Moves (take worker_id now) n w p at up = take-Moves worker_id now w n p at up
  operate-Moves (attempt_end worker_id now job_id job outcome) n w p at up =
      finish-Moves worker_id now job_id w n p at up job outcome
  operate-Moves (recovery worker_id now job_id job err owner) n w p at up =
      failure-Moves worker_id now job_id w n p at up job err owner
  operate-Moves (promotion worker_id now) n w p at up = promotion-Moves worker_id now w n p at up

  -- The operations refine the state machine of a job. When Redis answers, let the document of an id
  -- and its entries in the two queues agree on a place. After any operations they agree again, and
  -- the place reached is one that the state machine reaches from the first one by the
  -- actions that these operations are to the job; a cancellation, the end of an attempt and a
  -- recovery that name another job leave it where it is.
  pub operate_all_refines :
      (ops : List Operation) (w : World) (n : ℕ) (p : Place)
      → place n w ≡ some p
      → w.redis_up ≡ true
      → (q : Place) × (place n (operate_all ops w) ≡ some q) × (p ─ (actions_of n ops) ⟶* q)
  unfolding operate_all
  operate_all_refines [] w n p at up = (p, at, here)
  operate_all_refines (op ∷ ops) w n p at up =
      let m = operate-Moves op n w p at up in
      let (q, there, path) =
        operate_all_refines ops (operate op w) n m.to m.there (operate-Keeps op w ∙ up) in
      (q, there, next m.edge path)

  -- Every id is in the places that its document says, and in no other.
  abbrev pub IsConsistent : World → Type 0
  IsConsistent w = (n : ℕ) → (p : Place) × (place n w ≡ some p)
