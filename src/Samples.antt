-- ===== src/Samples.antt =====
-- Jobs and states for the tests of the other modules. They stand for no code of the repository.
use ai_distributed_job_platf.Prelude.{true, false, [], none, some}
use ai_distributed_job_platf.Models.Json.{empty_object}
use ai_distributed_job_platf.Models.Job.{Job, queued, processing, retrying}
use ai_distributed_job_platf.Services.World.{World}
use ai_distributed_job_platf.Services.Memory.{memory}

-- A QUEUED job of user 7.
abbrev pub waiting_job : Job
waiting_job = record {
  user_id = 7;
  type_name = "send-email";
  payload = empty_object;
  status = queued;
  priority = 5;
  attempts = 0;
  max_attempts = 3;
  timeout_ms = 30000;
  idempotency_key = "k1";
  locked_by = none;
  lock_expires_at = none;
  scheduled_for = none;
  cancellation_requested = false;
  result = none;
  error = none;
  started_at = none;
  completed_at = none;
  history = [];
}

-- The job while the worker "w1" processes its first attempt.
abbrev pub running_job : Job
running_job = record waiting_job {
  status = processing;
  locked_by = some "w1";
  lock_expires_at = some 36000;
  started_at = some 1000;
  attempts = 1;
}

-- The job between two attempts.
abbrev pub retrying_job : Job
retrying_job = record waiting_job { status = retrying; attempts = 1; error = some "down" }

abbrev pub no_members : memory.ZSet
no_members = record { size = 0; at = λ m. none }

-- A state with one document, of the id 0, and empty queues.
abbrev pub world_with : Job → World
world_with job = record {
  jobs = record { size = 1; at = λ i. job };
  queue = no_members;
  delayed = no_members;
  events = [];
  redis_up = true;
}

-- The same with no document.
abbrev pub empty_world : World
empty_world = record (world_with waiting_job) { jobs = record { size = 0; at = λ i. waiting_job } }

-- Two members in the main queue, 0 of priority 5 and 1 of priority 1, and two in the delayed queue,
-- 2 ready at 3000 and 3 ready at 9000.
abbrev pub busy_world : World
busy_world = record (world_with waiting_job) {
  queue = memory.zadd 1_000_000_002_000 1 (memory.zadd 5_000_000_001_000 0 no_members);
  delayed = memory.zadd 9000 3 (memory.zadd 3000 2 no_members);
}

-- The state while Redis does not answer.
abbrev pub down : World → World
down w = record w { redis_up = false }
