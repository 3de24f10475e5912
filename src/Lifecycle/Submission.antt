-- ===== src/Lifecycle/Submission.antt =====
-- The moves of a submission (modules/jobs/jobs.controller.js, `submitJob`).
use ai_distributed_job_platf.Prelude.{
  ℕ, ◌≡◌, inl, inr, refl, sym, ap, subst, ◌∙◌, String, Bool, true, false, Option, none, some, ◌==◌,
  ==_refl, Bool-cases, Option-cases, arith,
}
use ai_distributed_job_platf.Services.{Services}
use ai_distributed_job_platf.Services.Redis.{is_member}
use ai_distributed_job_platf.Services.World.{World, document}
use ai_distributed_job_platf.Jobs.{Submission, present, future, is_redis_healthy}
use ai_distributed_job_platf.Jobs.Handlers.{submit_job}
use ai_distributed_job_platf.Jobs.Submit.{submit_job-found, Submitted, submit_job-Submitted}
use ai_distributed_job_platf.Lifecycle.{
  Place, absent, waiting, delayed, submitting, ◌─◌⟶◌, submit, schedule, place_of, place,
}
use ai_distributed_job_platf.Lifecycle.Moves.{Moves, same-Moves, split-Moves}

absent_alone :
    (in_queue in_delayed : Bool) (p : Place)
    → place_of none in_queue in_delayed ≡ some p
    → (p ≡ absent) × (in_queue ≡ false) × (in_delayed ≡ false)
absent_alone in_queue in_delayed p here = ground arith

is_member-none : (o : Option ℕ) → is_member o ≡ false → o ≡ none
is_member-none o h = ground arith

module _ ⦃s : Services⦄ (iso : ℕ → String) (now : ℕ) (pong : Option String) (user_id : ℕ)
    (r : Submission) (w : World) (n : ℕ) (p : Place) (here : place n w ≡ some p)
    (up : w.redis_up ≡ true) where
  unchanged : (w' : World) → w' ≡ w → Moves submitting n w w' p
  unchanged w' e =
      same-Moves n w w' p here (ap (document n) e) (ap (λ v. s.zscore n v.queue) e)
        (ap (λ v. s.zscore n v.delayed) e)

  module _ (type_name key : String) (typed : present r.type_name ≡ some type_name)
      (keyed : present r.idempotency_key ≡ some key) (healthy : is_redis_healthy pong ≡ true) where
    -- The new job is where it should be.
    new_place :
        (job_id : ℕ) (w' : World) (scheduled : Option ℕ)
        → place job_id w ≡ some p
        → scheduled ≡ future now r.scheduled_for
        → Submitted iso now pong user_id r type_name key typed keyed healthy w job_id w'
        → Moves submitting job_id w w' p
    new_place job_id w' scheduled at e sub =
        let (alone, q, t) =
          absent_alone (is_member (s.zscore job_id w.queue)) (is_member (s.zscore job_id w.delayed))
            p
            (subst
              (λ o.
                place_of o (is_member (s.zscore job_id w.queue))
                  (is_member (s.zscore job_id w.delayed))
                ≡ some p)
              sub.fresh at) in
        let no_queue = is_member-none (s.zscore job_id w.queue) q in
        let no_delayed = is_member-none (s.zscore job_id w.delayed) t in
        by_time scheduled e alone no_queue no_delayed
      where
        by_time :
            (o : Option ℕ)
            → o ≡ future now r.scheduled_for
            → p ≡ absent
            → s.zscore job_id w.queue ≡ none
            → s.zscore job_id w.delayed ≡ none
            → Moves submitting job_id w w' p
        by_time none e alone q t = record {
          to = waiting;
          there =
              rw
                (
                  sub.documents job_id,
                  sub.queue job_id,
                  sub.delayed job_id,
                  ==_refl job_id,
                  sym e,
                  t,
                )
                refl;
          edge = subst (λ x. x ─ submitting ⟶ waiting) (sym alone) submit;
        }
        by_time (some time) e alone q t = record {
          to = delayed;
          there =
              rw
                (
                  sub.documents job_id,
                  sub.queue job_id,
                  sub.delayed job_id,
                  ==_refl job_id,
                  sym e,
                  q,
                )
                refl;
          edge = subst (λ x. x ─ submitting ⟶ delayed) (sym alone) schedule;
        }

    complete-Moves : Moves submitting n w (submit_job iso now pong user_id r w).1 p
    complete-Moves = elim (Option-cases (s.find_by_key key w.jobs)) [
      | inl free ↦
          let (job_id, told, sub) =
            submit_job-Submitted iso now pong user_id r type_name key typed keyed healthy w free
              up in
          split-Moves job_id n w _ p here
            (λ at. new_place job_id _ (future now r.scheduled_for) at refl sub)
            (λ apart.
              let e : (job_id == n) ≡ false = ground arith in
              same-Moves n w _ p here (sub.documents n ∙ rw e refl) (sub.queue n ∙ rw e refl)
                (sub.delayed n ∙ rw e refl))
      | inr (found, taken) ↦ unchanged _ (
          ap (λ x. x.1)
            (submit_job-found iso now pong user_id r type_name key typed keyed healthy w)
          ∙ rw taken refl)
    ]

  pub submission-Moves : Moves submitting n w (submit_job iso now pong user_id r w).1 p
  submission-Moves = elim (Option-cases (present r.type_name)) [
    | inl untyped ↦ unchanged _ (unfold submit_job in rw untyped refl)
    | inr (type_name, typed) ↦ elim (Option-cases (present r.idempotency_key)) [
      | inl unkeyed ↦ unchanged _ (unfold submit_job in rw (typed, unkeyed) refl)
      | inr (key, keyed) ↦ elim (Bool-cases (is_redis_healthy pong)) [
        | inl healthy ↦ complete-Moves type_name key typed keyed healthy
        | inr ill ↦ unchanged _ (unfold submit_job in rw (typed, keyed, ill) refl)
      ]
    ]
  ]
