-- ===== src/Lifecycle/Cancellation.antt =====
-- The moves of a cancellation (modules/jobs/jobs.controller.js, `cancelJob`).
use ai_distributed_job_platf.Prelude.{
  ℕ, ◌≡◌, ◌≢◌, ◌⊎◌, inl, inr, refl, sym, ap, subst, ◌∙◌, Bool, true, false, none, some, ◌==◌, any,
  ==_refl, Bool-cases, Option-cases, arith,
}
use ai_distributed_job_platf.Models.Job.{Job, Status, queued, processing, retrying}
use ai_distributed_job_platf.Services.{Services}
use ai_distributed_job_platf.Services.Redis.{is_member}
use ai_distributed_job_platf.Services.World.{World, document}
use ai_distributed_job_platf.Jobs.{is_terminal}
use ai_distributed_job_platf.Jobs.Handlers.{cancel_job}
use ai_distributed_job_platf.Jobs.Access.{cancel_job-refused}
use ai_distributed_job_platf.Jobs.Cancel.{cancel_job-waiting, cancel_job-running}
use ai_distributed_job_platf.Lifecycle.{
  Place, waiting, delayed, ended, cancelling, aimed, ◌─◌⟶◌, stay, withdraw, withdraw_delayed,
  place_of, place,
}
use ai_distributed_job_platf.Lifecycle.Moves.{Moves, same-Moves, aimed-Moves, place_found}

data Kind (status : Status) : Type 0 where
  over : is_terminal status ≡ true → Kind status
  open' : (status ≡ queued) ⊎ (status ≡ retrying) → Kind status
  runs : status ≡ processing → Kind status

kind : (status : Status) → Kind status
unfolding is_terminal any
kind Status.queued = open' (inl refl)
kind Status.processing = runs refl
kind Status.completed = over refl
kind Status.failed = over refl
kind Status.retrying = open' (inr refl)
kind Status.dead_letter = over refl
kind Status.cancelled = over refl

-- A job that waits, in either queue, can be withdrawn.
withdrawn :
    (job : Job) (q e : Bool) (p : Place)
    → place_of (some job) q e ≡ some p
    → (job.status ≡ queued) ⊎ (job.status ≡ retrying)
    → (p ─ cancelling ⟶ ended) × (job.locked_by ≡ none)
withdrawn job true e p here waits =
    let at : p ≡ waiting = ground arith in
    (subst (λ x. x ─ cancelling ⟶ ended) (sym at) withdraw, ground arith)
withdrawn job false e p here waits =
    let at : p ≡ delayed = ground arith in
    (subst (λ x. x ─ cancelling ⟶ ended) (sym at) withdraw_delayed, ground arith)

module _ ⦃s : Services⦄ (now user_id job_id : ℕ) (w : World) (n : ℕ) (p : Place)
    (here : place n w ≡ some p) (up : w.redis_up ≡ true) where
  unchanged : (w' : World) → w' ≡ w → Moves (aimed cancelling (job_id == n)) n w w' p
  unchanged w' e =
      same-Moves n w w' p here (ap (document n) e) (ap (λ v. s.zscore n v.queue) e)
        (ap (λ v. s.zscore n v.delayed) e)

  refused :
      (code : ℕ)
      → ((document job_id w ≡ none) × (code ≡ 404))
        ⊎ ((job : Job) × (document job_id w ≡ some job)
            × (((job.user_id ≢ user_id) × (code ≡ 403))
                ⊎ ((job.user_id ≡ user_id) × (is_terminal job.status ≡ true) × (code ≡ 409))))
      → Moves (aimed cancelling (job_id == n)) n w (cancel_job now user_id job_id w).1 p
  refused code h =
      let (answer, e, _) = cancel_job-refused user_id job_id w now code h in
      unchanged (cancel_job now user_id job_id w).1 (ap (λ r. r.1) e)

  withdrawal :
      (job : Job)
      → document job_id w ≡ some job
      → job.user_id ≡ user_id
      → (job.status ≡ queued) ⊎ (job.status ≡ retrying)
      → Moves (aimed cancelling (job_id == n)) n w (cancel_job now user_id job_id w).1 p
  withdrawal job found own waits =
      let (told, gone) = cancel_job-waiting now job_id w user_id job found own waits up in
      aimed-Moves job_id n w _ p here
        (λ at.
          let (edge, free) =
            withdrawn job (is_member (s.zscore job_id w.queue))
              (is_member (s.zscore job_id w.delayed)) p (place_found job_id w job p found at)
              waits in
          record {
            to = ended;
            there =
                rw (gone.document', gone.queue job_id, gone.delayed job_id, ==_refl job_id, free)
                  refl;
            edge = edge;
          })
        (λ apart.
          let e : (job_id == n) ≡ false = ground arith in
          same-Moves n w _ p here (gone.others n apart) (gone.queue n ∙ rw e refl)
            (gone.delayed n ∙ rw e refl))

  request :
      (job : Job)
      → document job_id w ≡ some job
      → job.user_id ≡ user_id
      → job.status ≡ processing
      → Moves (aimed cancelling (job_id == n)) n w (cancel_job now user_id job_id w).1 p
  request job found own running' =
      let f = cancel_job-running now job_id w user_id job found own running' in
      aimed-Moves job_id n w _ p here
        (λ at. record {
          to = p;
          there = rw (f.3, f.5.queue, f.5.delayed) (place_found job_id w job p found at);
          edge = stay;
        })
        (λ apart.
          same-Moves n w _ p here (f.4 n apart) (ap (s.zscore n) f.5.queue)
            (ap (s.zscore n) f.5.delayed))

  by_kind :
      (job : Job)
      → document job_id w ≡ some job
      → job.user_id ≡ user_id
      → Kind job.status
      → Moves (aimed cancelling (job_id == n)) n w (cancel_job now user_id job_id w).1 p
  by_kind job found own (over h) = refused 409 (inr (job, found, inr (own, h, refl)))
  by_kind job found own (open' h) = withdrawal job found own h
  by_kind job found own (runs h) = request job found own h

  pub cancellation-Moves :
      Moves (aimed cancelling (job_id == n)) n w (cancel_job now user_id job_id w).1 p
  cancellation-Moves = elim (Option-cases (document job_id w)) [
    | inl gone ↦ refused 404 (inl (gone, refl))
    | inr (job, found) ↦ elim (Bool-cases (job.user_id == user_id)) [
      | inl own ↦ by_kind job found (ground arith) (kind job.status)
      | inr foreign ↦ refused 403 (inr (job, found, inl (ground arith, refl)))
    ]
  ]
