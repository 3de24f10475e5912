-- ===== src/Events/Tests.antt =====
-- Events published while Kafka is partly down (kafka/producer.js).
use ai_distributed_job_platf.Prelude.{false, List, [], ◌∷◌, Outcome, ok, threw, plain_error}
use ai_distributed_job_platf.Models.Job.{queued}
use ai_distributed_job_platf.Services.World.{job_started, job_cancelled}
use ai_distributed_job_platf.Events.{Message, message_of, Producer}
use ai_distributed_job_platf.Events.Delivery.{Publication}

abbrev new_producer : Producer
new_producer = record { is_connected = false; connections = 0; sent = [] }

abbrev down : Outcome (Unit {0})
down = threw (plain_error "connection refused")

-- Kafka is down for the first call, and loses the third.
abbrev calls : List Publication
calls =
    record { now = 1; event = job_cancelled 4 queued; connect = down; send = down }
    ∷ record { now = 2; event = job_started 5 "send-email" "w1" 1; connect = ok tt; send = ok tt }
    ∷ record { now = 3; event = job_cancelled 6 queued; connect = ok tt; send = down }
    ∷ record { now = 4; event = job_cancelled 7 queued; connect = down; send = ok tt }
    ∷ []

abbrev messages : List Message
messages =
    message_of 2 (job_started 5 "send-email" "w1" 1) ∷ message_of 4 (job_cancelled 7 queued) ∷ []
