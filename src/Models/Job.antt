-- ===== src/Models/Job.antt =====
-- src/models/job.model.js. A document is kept under its `_id`, so the record has no field for that;
-- ids of jobs and users are numbers. `createdAt` and `updatedAt`, which no code reads, are left out.
use ai_distributed_job_platf.Prelude.{
  ℕ, String, ◌≡◌, Bool, true, false, List, [], ◌∷◌, ◌++◌, Option, arith,
}
use ai_distributed_job_platf.Models.Json.{Json}

pub data Status : Type 0 where
  queued processing completed failed retrying dead_letter cancelled : Status

-- `===` on two statuses.
abbrev pub status_eq : Status → Status → Bool
status_eq queued queued = true
status_eq processing processing = true
status_eq completed completed = true
status_eq failed failed = true
status_eq retrying retrying = true
status_eq dead_letter dead_letter = true
status_eq cancelled cancelled = true
status_eq _ _ = false

-- The text of a status, as it is stored and put into messages.
unfoldable pub status_text : Status → String
status_text queued = "QUEUED"
status_text processing = "PROCESSING"
status_text completed = "COMPLETED"
status_text failed = "FAILED"
status_text retrying = "RETRYING"
status_text dead_letter = "DEAD_LETTER"
status_text cancelled = "CANCELLED"

pub record HistoryEntry : Type 0 where
  pub status : Status
  pub timestamp : ℕ
  pub worker_id : Option String
  pub note : Option String

pub record Job : Type 0 where
  pub user_id : ℕ
  pub type_name : String
  pub payload : Json
  pub status : Status
  pub priority : ℕ
  pub attempts : ℕ
  pub max_attempts : ℕ
  pub timeout_ms : ℕ
  pub idempotency_key : String
  pub locked_by : Option String
  pub lock_expires_at : Option ℕ
  pub scheduled_for : Option ℕ
  pub cancellation_requested : Bool
  pub result : Option Json
  pub error : Option String
  pub started_at : Option ℕ
  pub completed_at : Option ℕ
  pub history : List HistoryEntry

-- `$push: { history: entry }`.
abbrev pub push_history : HistoryEntry → Job → Job
push_history e job = record job { history = job.history ++ e ∷ [] }

-- What `job.status = value; await job.save()` writes: Mongoose sends a path only if its value has
-- changed since the document was loaded, so an assignment of the loaded value leaves the stored one.
abbrev pub saved_status : Status → Status → Status → Status
saved_status loaded value stored = elim (status_eq loaded value) [ true ↦ stored | false ↦ value ]

pub status_eq_iff : (a b : Status) → status_eq a b ≡ true → a ≡ b
status_eq_iff a b h = ground arith
