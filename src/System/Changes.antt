-- ===== src/System/Changes.antt =====
-- How the steps change one document (worker/worker.js and modules/jobs/jobs.controller.js).
use ai_distributed_job_platf.Prelude.{
  ℕ, ◌≡◌, ◌⊎◌, inl, inr, refl, String, List, [], ◌∷◌, ◌++◌, Option, some, Bool-cases, arith,
}
use ai_distributed_job_platf.Models.Json.{Json}
use ai_distributed_job_platf.Models.Job.{
  Job, HistoryEntry, Status, queued, processing, retrying, dead_letter, push_history, status_eq,
}
use ai_distributed_job_platf.Worker.{set_failed, set_completed, set_cancelled}
use ai_distributed_job_platf.Worker.Process.{save_claim}
use ai_distributed_job_platf.Worker.Loops.{save_promoted}
use ai_distributed_job_platf.Jobs.{cancel_waiting, request_cancellation}

-- A job that is PROCESSING has an owner and a time at which its lock ends, so that a recovery scan
-- will find it.
abbrev pub IsRecoverable : Job → Type 0
IsRecoverable job =
    job.status ≡ processing
    → ((owner : String) × (job.locked_by ≡ some owner))
      × ((expires : ℕ) × (job.lock_expires_at ≡ some expires))

-- What of a job stays as it was submitted.
pub record Request : Type 0 where
  pub user_id : ℕ
  pub type_name : String
  pub payload : Json
  pub priority : ℕ
  pub max_attempts : ℕ
  pub timeout_ms : ℕ
  pub idempotency_key : String
  pub scheduled_for : Option ℕ

abbrev pub request_of : Job → Request
request_of job = record {
  user_id = job.user_id;
  type_name = job.type_name;
  payload = job.payload;
  priority = job.priority;
  max_attempts = job.max_attempts;
  timeout_ms = job.timeout_ms;
  idempotency_key = job.idempotency_key;
  scheduled_for = job.scheduled_for;
}

-- A later state `e` of the job `d`: what the user has submitted is the same, and the history has
-- only grown.
pub record Later (d e : Job) : Type 0 where
  pub request : request_of e ≡ request_of d
  pub history : (more : List HistoryEntry) × (e.history ≡ d.history ++ more)
  pub recoverable : IsRecoverable d → IsRecoverable e

abbrev pub IsProper : (Job → Job) → Type 0
IsProper change = (d : Job) → Later d (change d)

pub set_failed-IsProper :
    (status : Status) (message : String) (e : HistoryEntry)
    → (status ≡ retrying) ⊎ (status ≡ dead_letter)
    → IsProper (λ d. push_history e (set_failed status message d))
set_failed-IsProper status message e h d = record {
  request = refl;
  history = (e ∷ [], refl);
  recoverable = λ _ p. ground arith;
}

pub set_completed-IsProper :
    (result : Json) (now : ℕ) (e : HistoryEntry)
    → IsProper (λ d. push_history e (set_completed result now d))
set_completed-IsProper result now e d = record {
  request = refl;
  history = (e ∷ [], refl);
  recoverable = λ _ p. cc;
}

pub set_cancelled-IsProper : (e : HistoryEntry) → IsProper (λ d. push_history e (set_cancelled d))
set_cancelled-IsProper e d = record {
  request = refl;
  history = (e ∷ [], refl);
  recoverable = λ _ p. cc;
}

pub save_claim-IsProper :
    (worker_id : String) (now : ℕ) (job : Job) → IsProper (save_claim worker_id now job)
save_claim-IsProper worker_id now job d = record {
  request = refl;
  history = (_, refl);
  recoverable = λ _ p. ((_, refl), (_, refl));
}

pub save_promoted-IsProper :
    (worker_id : String) (now : ℕ) (job : Job) → IsProper (save_promoted worker_id now job)
save_promoted-IsProper worker_id now job d = record {
  request = refl;
  history = (_, refl);
  recoverable = λ q p. elim (Bool-cases (status_eq job.status queued)) [
    | inl same ↦ q (ground arith)
    | inr changed ↦ ground arith
  ];
}

pub cancel_waiting-IsProper : (now : ℕ) → IsProper (cancel_waiting now)
cancel_waiting-IsProper now d = record {
  request = refl;
  history = (_, refl);
  recoverable = λ _ p. cc;
}

pub request_cancellation-IsProper :
    (now : ℕ) (status : Status) → IsProper (request_cancellation now status)
request_cancellation-IsProper now status d = record {
  request = refl;
  history = (_, refl);
  recoverable = λ q. q;
}
