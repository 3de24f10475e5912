-- ===== src/Health/Dependencies.antt =====
-- The combined health check against the checks of the single dependencies (app.js).
use ai_distributed_job_platf.Prelude.{
  ℕ, ◌≡◌, ◌↔◌, refl, String, Bool, true, ◌&&◌, Option, some, none, ap, str_eq_iff, ◌==◌, ==_iff,
  arith,
}
use ai_distributed_job_platf.Jobs.{is_redis_healthy}
use ai_distributed_job_platf.Health.{
  is_mongo_healthy, status_code, get_health, get_health_mongodb, get_health_redis,
}

pong_iff : (pong : Option String) → (is_redis_healthy pong ≡ true) ↔ (pong ≡ some "PONG")
unfolding is_redis_healthy
pong_iff none = (λ h. absurd (ground arith), λ h. absurd (ground arith))
pong_iff (some answer) = (
  λ h. ap some ((str_eq_iff answer "PONG").0 h),
  λ h. (str_eq_iff answer "PONG").1 (ground arith),
)

both : (a b : Bool) → (status_code (a && b) ≡ 200) ↔ ((status_code a ≡ 200) × (status_code b ≡ 200))
both a b = (λ h. ground arith, λ h. ground arith)

code_iff : (a : Bool) → (status_code a ≡ 200) ↔ (a ≡ true)
code_iff a = (λ h. ground arith, λ h. ground arith)

-- The API counts as healthy exactly if MongoDB is connected and Redis answers PONG, which is exactly
-- if the checks of both answer 200; what it reports of each is what that check reports. Kafka has no
-- part in it.
get_health-dependencies :
    (ready_state : ℕ) (pong : Option String)
    → let h = get_health ready_state pong in
      ((h.code ≡ 200) ↔ ((ready_state ≡ 1) × (pong ≡ some "PONG")))
      × ((h.code ≡ 200)
          ↔ (((get_health_mongodb ready_state).0 ≡ 200) × ((get_health_redis pong).0 ≡ 200)))
      × (h.mongo ≡ (get_health_mongodb ready_state).1)
      × (h.redis ≡ (get_health_redis pong).1)
unfolding get_health get_health_mongodb get_health_redis is_mongo_healthy
get_health-dependencies ready_state pong =
    let dependencies = both (ready_state == 1) (is_redis_healthy pong) in
    let mongo = code_iff (ready_state == 1) in
    let redis = code_iff (is_redis_healthy pong) in
    (
      (
        λ h.
            let (m, r) = dependencies.0 h in
            ((==_iff ready_state 1).0 (mongo.0 m), (pong_iff pong).0 (redis.0 r)),
        λ h.
            dependencies.1
              (mongo.1 ((==_iff ready_state 1).1 h.0), redis.1 ((pong_iff pong).1 h.1)),
      ),
      dependencies,
      refl,
      refl,
    )
