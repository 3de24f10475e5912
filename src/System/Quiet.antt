-- ===== src/System/Quiet.antt =====
-- The parts of the steps that write no document (queue/queue.js, queue/claim.js, and what calls them).
use ai_distributed_job_platf.Prelude.{ℕ, ◌≡◌, refl, ◌∙◌, Bool, true, false, Option, none, some}
use ai_distributed_job_platf.Models.Job.{Job}
use ai_distributed_job_platf.Services.{Services}
use ai_distributed_job_platf.Services.World.{World, M, answered, then_with}
use ai_distributed_job_platf.Services.Loops.{then_with-keeps}
use ai_distributed_job_platf.Queue.{
  push_job_to_queue, push_to_delayed_queue, claim_next_job, promote_due_delayed_jobs,
}
use ai_distributed_job_platf.Jobs.Handlers.{enqueue, submit_created}

module _ ⦃s : Services⦄ where
  -- A command on a queue, answered or not, leaves the documents.
  answered-jobs :
      {A : Type 0} (up : Bool) (r : A × World) (w : World)
      → r.1.jobs ≡ w.jobs
      → (answered up r w).1.jobs ≡ w.jobs
  answered-jobs true r w quiet = quiet
  answered-jobs false r w quiet = refl

  pub push_job_to_queue-jobs :
      (now job_id priority : ℕ) (w : World)
      → (push_job_to_queue now job_id priority w).1.jobs ≡ w.jobs
  unfolding push_job_to_queue
  push_job_to_queue-jobs now job_id priority w = answered-jobs w.redis_up _ w refl

  push_to_delayed_queue-jobs :
      (job_id t : ℕ) (w : World) → (push_to_delayed_queue job_id t w).1.jobs ≡ w.jobs
  unfolding push_to_delayed_queue
  push_to_delayed_queue-jobs job_id t w = answered-jobs w.redis_up _ w refl

  pub claim-jobs : (w : World) → (claim_next_job w).1.jobs ≡ w.jobs
  unfolding claim_next_job
  claim-jobs w = answered-jobs w.redis_up _ w refl

  pub scan-jobs : (now : ℕ) (w : World) → (promote_due_delayed_jobs now w).1.jobs ≡ w.jobs
  unfolding promote_due_delayed_jobs
  scan-jobs now w = answered-jobs w.redis_up _ w refl

  enqueue-jobs :
      (now job_id : ℕ) (job : Job) (o : Option ℕ) (w : World)
      → (enqueue now job_id job o w).1.jobs ≡ w.jobs
  enqueue-jobs now job_id job none w = push_job_to_queue-jobs now job_id job.priority w
  enqueue-jobs now job_id job (some t) w = push_to_delayed_queue-jobs job_id t w

  pub submit_created-jobs :
      (now : ℕ) (job : Job) (o : Option ℕ) (w : World)
      → (submit_created now job o w).1.jobs ≡ w.jobs
  submit_created-jobs now job none w = refl
  submit_created-jobs now job (some job_id) w =
      then_with-keeps (λ u. u.jobs ≡ w.jobs) _ (enqueue now job_id job job.scheduled_for w).0
        (enqueue now job_id job job.scheduled_for w).1 (λ _ u h. h)
        (enqueue-jobs now job_id job job.scheduled_for w)

  pub retry-quiet :
      (job_id t : ℕ) (k : M (Unit {0})) (v : World)
      → ((u : World) → (k u).1.jobs ≡ u.jobs)
      → (then_with
          (λ _. k)
          (push_to_delayed_queue job_id t v).0
          (push_to_delayed_queue job_id t v).1).1.jobs
        ≡ v.jobs
  retry-quiet job_id t k v quiet =
      then_with-keeps (λ u. u.jobs ≡ v.jobs) (λ _. k) (push_to_delayed_queue job_id t v).0
        (push_to_delayed_queue job_id t v).1 (λ _ u h. quiet u ∙ h)
        (push_to_delayed_queue-jobs job_id t v)
