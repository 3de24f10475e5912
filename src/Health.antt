-- ===== src/Health.antt =====
-- src/app.js: the health checks, over src/config/db.js, src/config/redis.js and src/kafka/producer.js.
pub mod Dependencies
mod Tests
use ai_distributed_job_platf.Prelude.{ℕ, String, Bool, ◌&&◌, ◌==◌, Option, Outcome, if◌then◌else◌}
use ai_distributed_job_platf.Jobs.{is_redis_healthy}
use ai_distributed_job_platf.Events.{is_kafka_healthy}

-- `isMongoHealthy`, given `mongoose.connection.readyState`.
unfoldable pub is_mongo_healthy : ℕ → Bool
is_mongo_healthy ready_state = ready_state == 1

abbrev pub up_or_down : Bool → String
up_or_down ok = if ok then "up" else "down"

abbrev pub status_code : Bool → ℕ
status_code ok = if ok then 200 else 503

-- The answer of `GET /health`.
pub record Health : Type 0 where
  pub code : ℕ
  pub status : String
  pub mongo : String
  pub redis : String

unfoldable pub get_health : ℕ → Option String → Health
get_health ready_state pong =
    let mongo_ok = is_mongo_healthy ready_state in
    let redis_ok = is_redis_healthy pong in
    let healthy = mongo_ok && redis_ok in
    record {
      code = status_code healthy;
      status = if healthy then "ok" else "degraded";
      mongo = up_or_down mongo_ok;
      redis = up_or_down redis_ok;
    }

-- The code and the status of the checks of one dependency.
unfoldable pub get_health_mongodb : ℕ → ℕ × String
get_health_mongodb ready_state =
    let ok = is_mongo_healthy ready_state in (status_code ok, up_or_down ok)

unfoldable pub get_health_redis : Option String → ℕ × String
get_health_redis pong = let ok = is_redis_healthy pong in (status_code ok, up_or_down ok)

unfoldable pub get_health_kafka : Outcome (Unit {0}) → Outcome (Unit {0}) → ℕ × String
get_health_kafka connect list_topics =
    let ok = is_kafka_healthy connect list_topics in (status_code ok, up_or_down ok)
