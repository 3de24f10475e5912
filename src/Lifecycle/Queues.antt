-- ===== src/Lifecycle/Queues.antt =====
-- The moves of the operations on the queues: a lane takes a job (worker/worker.js, `runLane`), and
-- due jobs are promoted (`promoteReadyJobs`).
use ai_distributed_job_platf.Prelude.{
  ℕ, ◌≡◌, ◌≢◌, inl, inr, refl, sym, ap, subst, ◌∙◌, String, true, false, none, some, ok, ◌==◌,
  ==_refl, Bool-cases, Option-cases, arith,
}
use ai_distributed_job_platf.Services.{Services}
use ai_distributed_job_platf.Services.Redis.{is_member, is_due}
use ai_distributed_job_platf.Services.World.{World, document}
use ai_distributed_job_platf.Queue.{claim_next_job}
use ai_distributed_job_platf.Queue.Claiming.{Claim, claim_next_job-Claim}
use ai_distributed_job_platf.Worker.Process.{start_attempt}
use ai_distributed_job_platf.Worker.Attempt.{start_attempt_lem}
use ai_distributed_job_platf.Worker.Loops.{promote_ready_jobs}
use ai_distributed_job_platf.Worker.Promoting.{promote_ready_jobs_lem}
use ai_distributed_job_platf.Lifecycle.{
  Place, waiting, running, claiming, promoting, ◌─◌⟶◌, promote, claim, place_of, place, take_job,
}
use ai_distributed_job_platf.Lifecycle.Moves.{
  Moves, same-Moves, split-Moves, in_queue_waiting, in_delayed_delayed,
}

module _ ⦃s : Services⦄ (worker_id : String) (now : ℕ) (w : World) (n : ℕ) (p : Place)
    (here : place n w ≡ some p) (up : w.redis_up ≡ true) where
  empty-Moves :
      (claim_next_job w).0 ≡ ok none
      → ((m : ℕ) → s.zscore m w.queue ≡ none)
      → Moves claiming n w (take_job worker_id now w).1 p
  unfolding take_job claim_next_job
  empty-Moves nothing empty = elim (Option-cases (s.bzpopmin w.queue).0) [
    | inl e ↦
        same-Moves n w _ p here (rw (up, e) refl)
          (rw (up, e) (s.zscore-bzpopmin_empty w.queue n e ∙ sym (empty n))) (rw (up, e) refl)
    | inr (popped, e) ↦ absurd (ground arith)
  ]

  -- A start writes no document but that of its id, and leaves the queues.
  start_attempt_other :
      (m : ℕ) (v : World)
      → m ≢ n
      → let v' = (start_attempt worker_id now m v).1 in
        (document n v' ≡ document n v) × (v'.queue ≡ v.queue) × (v'.delayed ≡ v.delayed)
  start_attempt_other m v apart = elim (Option-cases (document m v)) [
    | inl gone ↦ unfold start_attempt in rw gone (refl, refl, refl)
    | inr (job, found) ↦
        let f = start_attempt_lem worker_id now m v job found in
        (f.2 n apart, f.3.queue, f.3.delayed)
  ]

  taken-Moves :
      (m score : ℕ)
      → (claim_next_job w).0 ≡ ok (some m)
      → Claim m score w (claim_next_job w).1
      → Moves claiming n w (start_attempt worker_id now m (claim_next_job w).1).1 p
  taken-Moves m score told c =
      let v = (claim_next_job w).1 in
      split-Moves m n w _ p here
        (λ at.
          let member : is_member (s.zscore m w.queue) ≡ true = rw c.member refl in
          let (job, found, status, free, t, e) =
            in_queue_waiting (document m w) (is_member (s.zscore m w.delayed)) p (
              subst (λ b. place_of (document m w) b (is_member (s.zscore m w.delayed)) ≡ some p)
                member at) in
          let f =
            start_attempt_lem worker_id now m v job (ap (s.find_by_id m) c.same_jobs ∙ found) in
          record {
            to = running;
            there =
                rw (f.1, f.3.queue, f.3.delayed, c.removed m, ==_refl m, c.same_delayed, t) refl;
            edge = subst (λ x. x ─ claiming ⟶ running) (sym e) claim;
          })
        (λ apart.
          let e : (m == n) ≡ false = ground arith in
          let f = start_attempt_other m v apart in
          same-Moves n w _ p here (f.0 ∙ ap (s.find_by_id n) c.same_jobs)
            (ap (s.zscore n) f.1 ∙ c.removed n ∙ rw e refl)
            (ap (s.zscore n) (f.2 ∙ c.same_delayed)))

  pub take-Moves : Moves claiming n w (take_job worker_id now w).1 p
  take-Moves = elim (claim_next_job-Claim w up) [
    | inl (nothing, empty) ↦ empty-Moves nothing empty
    | inr (m, score, told, c) ↦ unfold take_job in rw told (taken-Moves m score told c)
  ]

  due-Moves :
      is_due now (s.zscore n w.delayed) ≡ true
      → Moves promoting n w (promote_ready_jobs worker_id now w).1 p
  due-Moves due =
      let (_, all) = promote_ready_jobs_lem worker_id now w up in
      let (d, q, e) = all n in
      let member : is_member (s.zscore n w.delayed) ≡ true = ground arith in
      let (job, found, free, t, at) =
        in_delayed_delayed (document n w) (is_member (s.zscore n w.queue)) p (
          subst (λ b. place_of (document n w) (is_member (s.zscore n w.queue)) b ≡ some p) member
            here) in
      record {
        to = waiting;
        there = rw (d, q, e, due, found, free) refl;
        edge = subst (λ x. x ─ promoting ⟶ waiting) (sym at) promote;
      }

  pub promotion-Moves : Moves promoting n w (promote_ready_jobs worker_id now w).1 p
  promotion-Moves = elim (Bool-cases (is_due now (s.zscore n w.delayed))) [
    | inl due ↦ due-Moves due
    | inr not_due ↦
        let (_, all) = promote_ready_jobs_lem worker_id now w up in
        let (d, q, e) = all n in
        same-Moves n w _ p here (d ∙ rw not_due refl) (q ∙ rw not_due refl) (e ∙ rw not_due refl)
  ]
