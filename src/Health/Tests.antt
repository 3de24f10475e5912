-- ===== src/Health/Tests.antt =====
-- A health check while Redis does not answer (app.js).
use ai_distributed_job_platf.Prelude.{◌≡◌, refl, none}
use ai_distributed_job_platf.Jobs.{is_redis_healthy}
use ai_distributed_job_platf.Health.{is_mongo_healthy, get_health}

degraded :
    get_health 1 none ≡ record { code = 503; status = "degraded"; mongo = "up"; redis = "down" }
unfolding get_health is_mongo_healthy is_redis_healthy
degraded = refl
