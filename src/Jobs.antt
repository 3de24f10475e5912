-- ===== src/Jobs.antt =====
-- src/modules/jobs/jobs.controller.js: the handlers of the job routes. A handler is given what it
-- reads of the request, the id of the authenticated user, and the time.
pub mod Handlers
pub mod Submit
pub mod Resubmit
pub mod Access
pub mod Cancel
pub mod Races
mod Tests
use text.Mathlib.Text.{starts_with}
use ai_distributed_job_platf.Prelude.{
  ℕ, String, Bool, true, false, not, ◌&&◌, ◌||◌, List, [], ◌∷◌, Option, none, some, Error,
  plain_error, ◌==◌, ltb, str_eq, template, any, if◌then◌else◌,
}
use ai_distributed_job_platf.Models.Json.{Json, null, bool, num, str, empty_object}
use ai_distributed_job_platf.Models.Job.{
  Job, HistoryEntry, Status, queued, processing, completed, failed, retrying, dead_letter,
  cancelled, status_eq, status_text, push_history,
}
use ai_distributed_job_platf.Services.{Services}
use ai_distributed_job_platf.Services.World.{
  World, M, pure, throw, ◌>>=◌, ◌>>◌, with_jobs, read_jobs, publish_event, job_created,
  job_cancelled, job_cancellation_requested,
}
use ai_distributed_job_platf.Queue.{
  push_job_to_queue, push_to_delayed_queue, remove_job_from_queue, remove_job_from_delayed_queue,
}

-- The JSON bodies of the responses.
pub data Body : Type 0 where
  error : String → Body
  already_submitted : ℕ → Job → Body
  submitted : String → ℕ → Status → Option ℕ → Body
  job_found : ℕ → Job → Body
  with_message : String → ℕ → Job → Body

pub record Response : Type 0 where
  pub status : ℕ
  pub body : Body

abbrev pub respond : ℕ → Body → Response
respond status body = record { status = status; body = body }

-- The body of a submission; `none` is a property that is not there. `scheduledFor` is what
-- `new Date(scheduledFor).getTime()` makes of it: `some none` is an invalid date.
pub record Submission : Type 0 where
  pub type_name : Option String
  pub payload : Option Json
  pub priority : Option ℕ
  pub idempotency_key : Option String
  pub timeout_ms : Option ℕ
  pub max_attempts : Option ℕ
  pub scheduled_for : Option (Option ℕ)

-- A text that is there and not empty, as `!text` tests it.
abbrev pub present : Option String → Option String
present none = none
present (some text) = if str_eq text "" then none else some text

-- `value ?? fallback`.
abbrev pub or_else : Option ℕ → ℕ → ℕ
or_else none fallback = fallback
or_else (some n) fallback = n

-- `payload || {}`.
abbrev pub or_empty : Option Json → Json
or_empty none = empty_object
or_empty (some null) = empty_object
or_empty (some (bool b)) = if b then bool true else empty_object
or_empty (some (num n)) = if n == 0 then empty_object else num n
or_empty (some (str text)) = if str_eq text "" then empty_object else str text
or_empty (some other) = other

abbrev pub default_timeout_ms : String → ℕ
default_timeout_ms type_name = if starts_with type_name "ai-" then 60000 else 30000

-- The scheduled time, if it is in the future.
abbrev pub future : ℕ → Option (Option ℕ) → Option ℕ
future now none = none
future now (some none) = none
future now (some (some t)) = if ltb now t then some t else none

-- config/redis.js, `isRedisHealthy`, given the answer to `PING`; `none` is a rejected command.
unfoldable pub is_redis_healthy : Option String → Bool
is_redis_healthy none = false
is_redis_healthy (some pong) = str_eq pong "PONG"

-- `Date.prototype.toISOString` enters as a function.
abbrev pub created_note : (ℕ → String) → Option ℕ → String
created_note to_iso_string none = "Job created"
created_note to_iso_string (some t) =
    template ("Job created, scheduled for " ∷ to_iso_string t ∷ [])

-- The document that `Job.create` stores, with the defaults of the schema.
abbrev pub new_job : (ℕ → String) → ℕ → ℕ → String → String → Submission → Job
new_job to_iso_string now user_id type_name key r = record {
  user_id = user_id;
  type_name = type_name;
  payload = or_empty r.payload;
  status = queued;
  priority = or_else r.priority 5;
  attempts = 0;
  max_attempts = or_else r.max_attempts 3;
  timeout_ms = or_else r.timeout_ms (default_timeout_ms type_name);
  idempotency_key = key;
  locked_by = none;
  lock_expires_at = none;
  scheduled_for = future now r.scheduled_for;
  cancellation_requested = false;
  result = none;
  error = none;
  started_at = none;
  completed_at = none;
  history =
      record {
        status = queued;
        timestamp = now;
        worker_id = none;
        note = some (created_note to_iso_string (future now r.scheduled_for));
      }
      ∷ [];
}

abbrev pub submitted_message : Option ℕ → String
submitted_message none = "Job submitted"
submitted_message (some t) = "Job scheduled"

abbrev pub duplicate_key : Error
duplicate_key = plain_error "E11000 duplicate key error collection"

-- `terminalStates.includes(status)`.
unfoldable pub is_terminal : Status → Bool
unfolding any
is_terminal status = any (status_eq status) (completed ∷ failed ∷ dead_letter ∷ cancelled ∷ [])

abbrev pub user_entry : Status → ℕ → String → HistoryEntry
user_entry status now note = record {
  status = status;
  timestamp = now;
  worker_id = none;
  note = some note;
}

-- The assignments of `cancelJob` before its two `save` calls.
abbrev pub cancel_waiting : ℕ → Job → Job
cancel_waiting now job =
    push_history (user_entry cancelled now "Cancelled by user before processing started")
      (record job { status = cancelled })

abbrev pub request_cancellation : ℕ → Status → Job → Job
request_cancellation now status job =
    push_history (user_entry status now "Cancellation requested while job was processing")
      (record job { cancellation_requested = true })
