-- ===== src/Events.antt =====
-- src/kafka/producer.js: publishing an event. What Kafka makes of a command is given. The calls are
-- taken one after the other.
pub mod Delivery
mod Tests
use ai_distributed_job_platf.Prelude.{
  ℕ, suc, String, Bool, true, false, List, [], ◌∷◌, ◌++◌, Error, Outcome, ok, threw, show,
  if◌then◌else◌,
}
use ai_distributed_job_platf.Services.World.{
  Event, job_created, job_started, job_completed, job_retrying, job_dlq, job_cancelled,
  job_cancellation_requested,
}

abbrev pub job_events_topic : String
job_events_topic = "job-events"

-- `payload.jobId`.
abbrev pub job_of : Event → ℕ
job_of (job_created job_id user_id type_name priority scheduled_for) = job_id
job_of (job_started job_id type_name worker_id attempt) = job_id
job_of (job_completed job_id type_name attempts) = job_id
job_of (job_retrying job_id type_name attempts max_attempts backoff_ms message) = job_id
job_of (job_dlq job_id type_name attempts message) = job_id
job_of (job_cancelled job_id status) = job_id
job_of (job_cancellation_requested job_id) = job_id

-- The event with its time, under the id of its job, which no event is without.
pub record Message : Type 0 where
  pub topic : String
  pub key : String
  pub event : Event
  pub emitted_at : ℕ

abbrev pub message_of : ℕ → Event → Message
message_of now event = record {
  topic = job_events_topic;
  key = show (job_of event);
  event = event;
  emitted_at = now;
}

-- The module's producer and its flag; the connections that were made, and what Kafka has taken.
pub record Producer : Type 0 where
  pub is_connected : Bool
  pub connections : ℕ
  pub sent : List Message

abbrev pub connected : Outcome (Unit {0}) → Producer → Outcome (Unit {0}) × Producer
connected (threw err) p = (threw err, p)
connected (ok done) p = (ok tt, record p { is_connected = true; connections = suc p.connections })

-- `ensureConnected`, given how `producer.connect()` ends.
unfoldable pub ensure_connected : Outcome (Unit {0}) → Producer → Outcome (Unit {0}) × Producer
ensure_connected connect p = if p.is_connected then (ok tt, p) else connected connect p

abbrev pub sent_on :
    Outcome (Unit {0}) → Message → Outcome (Unit {0}) × Producer → Outcome (Unit {0}) × Producer
sent_on send message (threw err, p) = (threw err, p)
sent_on (threw err) message (ok done, p) = (threw err, p)
sent_on (ok taken) message (ok done, p) = (ok tt, record p { sent = p.sent ++ message ∷ [] })

-- `catch`: the error is logged and dropped.
abbrev pub swallow : Outcome (Unit {0}) × Producer → Outcome (Unit {0}) × Producer
swallow (r, p) = (ok tt, p)

-- `publishEvent`, given how `producer.connect()` and `producer.send()` end.
unfoldable pub publish_event :
    Outcome (Unit {0}) → Outcome (Unit {0}) → ℕ → Event → Producer → Outcome (Unit {0}) × Producer
publish_event connect send now event p =
    swallow (sent_on send (message_of now event) (ensure_connected connect p))

-- `isKafkaHealthy`, given how `admin.connect()` and `admin.listTopics()` end; how `disconnect` ends
-- does not matter.
unfoldable pub is_kafka_healthy : Outcome (Unit {0}) → Outcome (Unit {0}) → Bool
is_kafka_healthy (threw err) list_topics = false
is_kafka_healthy (ok done) (threw err) = false
is_kafka_healthy (ok done) (ok topics) = true
