-- ===== src/Worker/Lanes.antt =====
-- src/worker/worker.js, `runWorker` and `runLane`: the lanes of a worker, each an endless loop of
-- rounds.
use ai_distributed_job_platf.Prelude.{
  ℕ, zero, suc, ◌≡◌, refl, ◌∙◌, inl, inr, String, true, false, List, [], ◌∷◌, ◌++◌, Option, none,
  some, Outcome, ok, threw, ==_refl, includes, IsDistinct, Option-cases, arith,
}
use ai_distributed_job_platf.Services.{Services}
use ai_distributed_job_platf.Services.World.{World, M, for_each, redis_error}
use ai_distributed_job_platf.Queue.{claim_next_job}
use ai_distributed_job_platf.Queue.Claiming.{claim_next_job-Claim, claim_next_job_up}
use ai_distributed_job_platf.Worker.Process.{Handlers}
use ai_distributed_job_platf.Worker.Loops.{lane_round}

-- `for (let laneId = 0; laneId < env.workerConcurrency; laneId++)`; `none` is NaN.
abbrev ids_below : ℕ → List ℕ
ids_below zero = []
ids_below (suc n) = ids_below n ++ n ∷ []

abbrev pub lane_ids : Option ℕ → List ℕ
lane_ids none = []
lane_ids (some concurrency) = ids_below concurrency

module _ ⦃s : Services⦄ where
  -- The first rounds of `runLane`, each with the times at which its job starts and its handler is
  -- done. A throw ends the lane, and with it the process.
  unfoldable pub run_lane : String → Handlers → List (ℕ × ℕ) → M (Unit {0})
  run_lane worker_id handlers rounds =
      for_each (λ times. lane_round worker_id times.0 times.1 handlers) rounds

  -- A lane does not survive that Redis does not answer: its first round throws, and nothing has
  -- changed.
  run_lane-down :
      (worker_id : String) (handlers : Handlers) (first : ℕ × ℕ) (rounds : List (ℕ × ℕ)) (w : World)
      → w.redis_up ≡ false
      → run_lane worker_id handlers (first ∷ rounds) w ≡ (threw redis_error, w)
  unfolding run_lane for_each lane_round claim_next_job
  run_lane-down worker_id handlers first rounds w down = rw down refl

  abbrev taken_by : Outcome (Option ℕ) → List ℕ → List ℕ
  taken_by (ok (some job_id)) rest = job_id ∷ rest
  taken_by _ rest = rest

  -- What a number of claims one after the other, by any lanes of any workers, take from the queue.
  pub claims : ℕ → World → List ℕ
  claims zero w = []
  claims (suc n) w = taken_by (claim_next_job w).0 (claims n (claim_next_job w).1)

  -- A claim brings nothing into the queue.
  claim_absent :
      (m : ℕ) (w : World)
      → w.redis_up ≡ true
      → s.zscore m w.queue ≡ none
      → s.zscore m (claim_next_job w).1.queue ≡ none
  unfolding claim_next_job
  claim_absent m w up gone = elim (Option-cases (s.bzpopmin w.queue).0) [
    | inl e ↦ rw up (s.zscore-bzpopmin_empty w.queue m e)
    | inr ((k, score), e) ↦ rw up (ground (arith, s.zscore-bzpopmin w.queue k score m e))
  ]

  claims_absent :
      (n m : ℕ) (w : World)
      → w.redis_up ≡ true
      → s.zscore m w.queue ≡ none
      → includes m (claims n w) ≡ false
  unfolding claims includes
  claims_absent zero m w up gone = refl
  claims_absent (suc n) m w up gone =
      let rest =
        claims_absent n m (claim_next_job w).1 (claim_next_job_up w up)
          (claim_absent m w up gone) in
      elim (claim_next_job-Claim w up) [
        | inl (nothing, empty) ↦ rw nothing rest
        | inr (k, score, told, claim) ↦ rw told (ground (arith, claim.member))
      ]

  -- However many lanes of however many workers claim jobs, one claim after the other as Redis runs
  -- them, no job is taken twice, as long as Redis answers and none is pushed again.
  claims-IsDistinct : (n : ℕ) (w : World) → w.redis_up ≡ true → IsDistinct (claims n w)
  unfolding claims
  claims-IsDistinct zero w up = tt
  claims-IsDistinct (suc n) w up =
      let v = (claim_next_job w).1 in
      let up' = claim_next_job_up w up in
      let rest = claims-IsDistinct n v up' in
      elim (claim_next_job-Claim w up) [
        | inl (nothing, empty) ↦ rw nothing rest
        | inr (k, score, told, claim) ↦
            rw told (claims_absent n k v up' (claim.removed k ∙ rw (==_refl k) refl), rest)
      ]
