-- ===== src/Lifecycle/Attempts.antt =====
-- The moves of the end of an attempt and of a recovery (worker/worker.js, `processJob` behind the
-- handler, and `handleFailure`).
use ai_distributed_job_platf.Prelude.{
  ◌==◌, ℕ, ◌+◌, ◌≡◌, ◌≢◌, ◌⊎◌, inl, inr, refl, sym, ap, subst, ◌∙◌, String, true, Option, none,
  some, Error, Outcome, ok, threw, ==_refl, str_eq_iff, Bool-cases, arith,
}
use ai_distributed_job_platf.Models.Json.{Json}
use ai_distributed_job_platf.Models.Job.{Job, completed, retrying, dead_letter, cancelled}
use ai_distributed_job_platf.Services.{Services}
use ai_distributed_job_platf.Services.Redis.{is_member}
use ai_distributed_job_platf.Services.World.{World, document, SameButFor, SameQueues, Untouched}
use ai_distributed_job_platf.Worker.{compute_backoff_ms, owner_eq, handle_failure}
use ai_distributed_job_platf.Worker.Process.{finish_attempt}
use ai_distributed_job_platf.Worker.Fencing.{is_owned}
use ai_distributed_job_platf.Worker.Failure.{
  handle_failure-stale, handle_failure-dead_letter, handle_failure-retry,
}
use ai_distributed_job_platf.Worker.Decisions.{gives_up-cases}
use ai_distributed_job_platf.Worker.Attempt.{
  finish_attempt-stale, finish_attempt-completed, finish_attempt-cancelled,
}
use ai_distributed_job_platf.Lifecycle.{
  Place, delayed, ended, Action, ending, aimed, ◌─◌⟶◌, retry, finish, place,
}
use ai_distributed_job_platf.Lifecycle.Moves.{
  Moves, same-Moves, aimed-Moves, place_found, locked_running,
}

owner_eq-some :
    (o : Option String) (owner : String) → owner_eq o (some owner) ≡ true → o ≡ some owner
owner_eq-some none owner h = absurd (ground arith)
owner_eq-some (some a) owner h = ap some ((str_eq_iff a owner).0 h)

-- A document that is owned is there, and locked by the owner.
owned_document :
    (owner : String) (o : Option Job)
    → is_owned (some owner) o ≡ true
    → (d : Job) × (o ≡ some d) × (d.locked_by ≡ some owner)
owned_document owner none h = absurd (ground arith)
owned_document owner (some d) h = (d, refl, owner_eq-some d.locked_by owner h)

module _ ⦃s : Services⦄ where
  untouched-Moves :
      {a : Action} (n : ℕ) (w w' : World) (p : Place)
      → place n w ≡ some p
      → Untouched w w'
      → Moves a n w w' p
  untouched-Moves {a = a} n w w' p here u =
      same-Moves n w w' p here (u.documents n) (ap (s.zscore n) u.queues.queue)
        (ap (s.zscore n) u.queues.delayed)

  -- A write to the document `j` that leaves the queues, seen at another one.
  other-Moves :
      {a : Action} (j n : ℕ) (w w' : World) (p : Place)
      → j ≢ n
      → place n w ≡ some p
      → SameButFor j w w'
      → SameQueues w w'
      → Moves a n w w' p
  other-Moves {a = a} j n w w' p apart here same queues =
      same-Moves n w w' p here (same n apart) (ap (s.zscore n) queues.queue)
        (ap (s.zscore n) queues.delayed)

  -- The running job's document is written, and it is done.
  ended-Moves :
      (j : ℕ) (w w' : World) (p : Place) (d e : Job) (owner : String)
      → place j w ≡ some p
      → document j w ≡ some d
      → d.locked_by ≡ some owner
      → document j w' ≡ some e
      → (e.status ≡ completed) ⊎ ((e.status ≡ dead_letter) ⊎ (e.status ≡ cancelled))
      → e.locked_by ≡ none
      → SameQueues w w'
      → Moves ending j w w' p
  ended-Moves j w w' p d e owner here found locked written over free queues =
      let (status, q, t, at) =
        locked_running d owner (is_member (s.zscore j w.queue)) (is_member (s.zscore j w.delayed)) p
          (place_found j w d p found here) locked in
      record {
        to = ended;
        there = rw (written, queues.queue, queues.delayed, q, t) (ground arith);
        edge = subst (λ x. x ─ ending ⟶ ended) (sym at) finish;
      }

  -- The running job's document is written, and it waits for its next attempt.
  retry-Moves :
      (j : ℕ) (w w' : World) (p : Place) (d e : Job) (owner : String) (t : ℕ)
      → place j w ≡ some p
      → document j w ≡ some d
      → d.locked_by ≡ some owner
      → document j w' ≡ some e
      → e.status ≡ retrying
      → e.locked_by ≡ none
      → w'.queue ≡ w.queue
      → s.zscore j w'.delayed ≡ some t
      → Moves ending j w w' p
  retry-Moves j w w' p d e owner t here found locked written waits free queue due =
      let (status, q, t, at) =
        locked_running d owner (is_member (s.zscore j w.queue)) (is_member (s.zscore j w.delayed)) p
          (place_found j w d p found here) locked in
      record {
        to = delayed;
        there = rw (written, queue, due, q, waits, free) refl;
        edge = subst (λ x. x ─ ending ⟶ delayed) (sym at) retry;
      }

  module _ (worker_id : String) (now job_id : ℕ) (w : World) (n : ℕ) (p : Place)
      (here : place n w ≡ some p) (up : w.redis_up ≡ true) where
    pub failure-Moves :
        (job : Job) (err : Error) (owner : String)
        → Moves
            (aimed ending (job_id == n))
            n
            w
            (handle_failure worker_id now job_id job err (some owner) w).1
            p
    failure-Moves job err owner = elim (Bool-cases (is_owned (some owner) (document job_id w))) [
      | inl owned ↦
          let (d, found, locked) = owned_document owner (document job_id w) owned in
          let test : owner_eq d.locked_by (some owner) ≡ true =
            rw locked ((str_eq_iff owner owner).1 refl) in
          elim (gives_up-cases job err) [
            | inl dead ↦
                let f =
                  handle_failure-dead_letter worker_id now job_id job err (some owner) w d found
                    test dead in
                aimed-Moves job_id n w _ p here
                  (λ at.
                    ended-Moves job_id w _ p d _ owner at found locked f.1 (inr (inl refl)) refl
                      f.3)
                  (λ apart. other-Moves job_id n w _ p apart here f.2 f.3)
            | inr (left, retryable) ↦
                let f =
                  handle_failure-retry worker_id now job_id job err (some owner) w d found test left
                    retryable up in
                aimed-Moves job_id n w _ p here
                  (λ at.
                    retry-Moves job_id w _ p d _ owner (now + compute_backoff_ms job.attempts) at
                      found locked f.1 refl refl f.3 (f.5 job_id ∙ rw (==_refl job_id) refl))
                  (λ apart.
                    same-Moves n w _ p here (f.2 n apart) (ap (s.zscore n) f.3)
                      (ground (arith, f.5 n)))
          ]
      | inr stale ↦
          untouched-Moves n w _ p here
            (handle_failure-stale worker_id now job_id job err (some owner) w stale).1
    ]

    pub finish-Moves :
        (job : Job) (outcome : Outcome Json)
        → Moves
            (aimed ending (job_id == n))
            n
            w
            (finish_attempt worker_id now job_id job outcome w).1
            p
    unfolding finish_attempt
    finish-Moves job (threw err) = failure-Moves job err worker_id
    finish-Moves job (ok result) =
        elim (Bool-cases (is_owned (some worker_id) (document job_id w))) [
          | inl owned ↦
              let (d, found, locked) = owned_document worker_id (document job_id w) owned in
              elim (Bool-cases d.cancellation_requested) [
                | inl unwanted ↦
                    let f =
                      finish_attempt-cancelled worker_id now job_id w d found locked job result
                        unwanted in
                    aimed-Moves job_id n w _ p here
                      (λ at.
                        ended-Moves job_id w _ p d _ worker_id at found locked f.1 (inr (inr refl))
                          refl f.3)
                      (λ apart. other-Moves job_id n w _ p apart here f.2 f.3)
                | inr wanted ↦
                    let f =
                      finish_attempt-completed worker_id now job_id w d found locked job result
                        wanted in
                    aimed-Moves job_id n w _ p here
                      (λ at.
                        ended-Moves job_id w _ p d _ worker_id at found locked f.1 (inl refl) refl
                          f.3)
                      (λ apart. other-Moves job_id n w _ p apart here f.2 f.3)
              ]
          | inr stale ↦
              untouched-Moves n w _ p here
                (finish_attempt-stale worker_id now job_id w job (ok result) stale).1
        ]
