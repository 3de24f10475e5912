-- ===== src/Http/Isolation.antt =====
-- What the routes of jobs let a user change (modules/jobs/jobs.routes.js, over
-- modules/jobs/jobs.controller.js).
use ai_distributed_job_platf.Prelude.{
  ℕ, ◌≡◌, ◌≢◌, inl, inr, refl, sym, ap, ◌∙◌, String, true, Option, none, some, ◌==◌, ==_iff, ◌||◌,
  Bool-cases, Option-cases, arith,
}
use ai_distributed_job_platf.Models.Job.{Job, queued, processing, retrying, status_eq}
use ai_distributed_job_platf.Services.{Services}
use ai_distributed_job_platf.Services.World.{World, document}
use ai_distributed_job_platf.Services.Updates.{update-other}
use ai_distributed_job_platf.Queue.{remove_job_from_queue, remove_job_from_delayed_queue}
use ai_distributed_job_platf.RateLimiter.{Reply, passed, too_many}
use ai_distributed_job_platf.RateLimiter.Commands.{Counters}
use ai_distributed_job_platf.Auth.External.{Accounts}
use ai_distributed_job_platf.Jobs.{
  Submission, is_terminal, is_redis_healthy, present, new_job, cancel_waiting, request_cancellation,
}
use ai_distributed_job_platf.Jobs.Handlers.{
  submit_unless_found, submit_complete, submit_fields, submit_job, for_owner, get_job_status,
  cancel_in_queue, cancel_running, cancel_owned, cancel_job,
}
use ai_distributed_job_platf.System.Quiet.{submit_created-jobs}
use ai_distributed_job_platf.System.Documents.{created-cases}
use ai_distributed_job_platf.Http.{
  Verdict, refused, identified, authenticate, JobRequest, post, get, cancel, Request, Server,
  handle, handle_passed, limit, serve_identified, serve,
}

module _ ⦃s : Services⦄ (n : ℕ) (d : Job) where
  -- The document `d` is stored under `n`.
  abbrev Has : World → Type 0
  Has w = document n w ≡ some d

  unless_found-Has :
      (now : ℕ) (job : Job) (o : Option (ℕ × Job)) (w : World)
      → job.status ≡ queued
      → Has w
      → Has (submit_unless_found now job o w).1
  unless_found-Has now job (some found) w new h = h
  unless_found-Has now job none w new h =
      let e = submit_created-jobs now job (s.create job w.jobs).0 _ in
      elim (created-cases job w.jobs (submit_unless_found now job none w).1.jobs new e) [
        | inl kept ↦ ap (s.find_by_id n) kept ∙ h
        | inr (i, c) ↦ elim (Bool-cases (i == n)) [
          | inl same ↦ absurd (cc (c.fresh, h, (==_iff i n).0 same))
          | inr apart ↦ c.others n (ground arith) ∙ h
        ]
      ]

  submit_complete-Has :
      (now : ℕ) (pong : Option String) (job : Job) (w : World)
      → job.status ≡ queued
      → Has w
      → Has (submit_complete now pong job w).1
  submit_complete-Has now pong job w new h = elim (Bool-cases (is_redis_healthy pong)) [
    | inl healthy ↦
        rw healthy (unless_found-Has now job (s.find_by_key job.idempotency_key w.jobs) w new h)
    | inr ill ↦ rw ill h
  ]

  submit_fields-Has :
      (iso : ℕ → String) (now : ℕ) (pong : Option String) (user_id : ℕ) (r : Submission)
      (type_name key : Option String) (w : World)
      → Has w
      → Has (submit_fields iso now pong user_id r type_name key w).1
  submit_fields-Has iso now pong user_id r (some type_name) (some key) w h =
      submit_complete-Has now pong (new_job iso now user_id type_name key r) w refl h
  submit_fields-Has iso now pong user_id r (some type_name) none w h = h
  submit_fields-Has iso now pong user_id r none key w h = h

  in_queue-Has :
      (now job_id : ℕ) (job : Job) (w : World)
      → job_id ≢ n
      → Has w
      → Has (cancel_in_queue now job_id job w).1
  unfolding cancel_in_queue remove_job_from_queue remove_job_from_delayed_queue
  in_queue-Has now job_id job w apart h = elim (Bool-cases w.redis_up) [
    | inl up ↦ rw up (update-other job_id (λ _. true) (cancel_waiting now) w.jobs n apart ∙ h)
    | inr down ↦ rw down h
  ]

  cancel_owned-Has :
      (now job_id : ℕ) (job : Job) (w : World)
      → job_id ≢ n
      → Has w
      → Has (cancel_owned now job_id job w).1
  unfolding cancel_owned cancel_running
  cancel_owned-Has now job_id job w apart h = elim (Bool-cases (is_terminal job.status)) [
    | inl over ↦ rw over h
    | inr open' ↦ elim (Bool-cases (status_eq job.status queued || status_eq job.status retrying)) [
      | inl waits ↦ rw (open', waits) (in_queue-Has now job_id job w apart h)
      | inr settled ↦ elim (Bool-cases (status_eq job.status processing)) [
        | inl runs ↦
            rw (open', settled, runs)
              (update-other job_id (λ _. true) (request_cancellation now job.status) w.jobs n apart
                ∙ h)
        | inr rest ↦ rw (open', settled, rest) h
      ]
    ]
  ]

  for_owner-Has :
      (now user_id job_id : ℕ) (o : Option Job) (w : World)
      → document job_id w ≡ o
      → d.user_id ≢ user_id
      → Has w
      → Has (for_owner user_id job_id (cancel_owned now job_id) o w).1
  for_owner-Has now user_id job_id none w e foreign h = h
  for_owner-Has now user_id job_id (some job) w e foreign h =
      elim (Bool-cases (job.user_id == user_id)) [
        | inl own ↦ rw own (
            cancel_owned-Has now job_id job w
              (λ same.
                foreign
                  (cc (e, h, ap (λ k. document k w) same, (==_iff job.user_id user_id).0 own)))
              h)
        | inr other ↦ rw other h
      ]

  status-Has : (user_id job_id : ℕ) (w : World) → Has w → Has (get_job_status user_id job_id w).1
  unfolding get_job_status
  status-Has user_id job_id w h = elim (Option-cases (document job_id w)) [
    | inl gone ↦ rw gone h
    | inr (job, found) ↦ elim (Bool-cases (job.user_id == user_id)) [
      | inl own ↦ rw (found, own) h
      | inr other ↦ rw (found, other) h
    ]
  ]

  handle-Has :
      (iso : ℕ → String) (now user_id : ℕ) (r : JobRequest) (w : World)
      → d.user_id ≢ user_id
      → Has w
      → Has (handle iso now user_id r w).1
  unfolding submit_job cancel_job
  handle-Has iso now user_id (post pong r) w foreign h =
      submit_fields-Has iso now pong user_id r (present r.type_name) (present r.idempotency_key) w h
  handle-Has iso now user_id (get job_id) w foreign h = status-Has user_id job_id w h
  handle-Has iso now user_id (cancel job_id) w foreign h =
      for_owner-Has now user_id job_id (document job_id w) w refl foreign h

  module _ ⦃c : Counters⦄ where
    passed-Has :
        (iso : ℕ → String) (now user_id : ℕ) (r : JobRequest) (limited : Reply × c.Store)
        (w : World)
        → d.user_id ≢ user_id
        → Has w
        → Has (handle_passed iso now user_id r limited w).1.world
    passed-Has iso now user_id r (passed, counters) w foreign h =
        handle-Has iso now user_id r w foreign h
    passed-Has iso now user_id r (too_many seconds, counters) w foreign h = h

    identified-Has :
        (iso : ℕ → String) (q : Request) (v : Verdict) (server : Server)
        → ((email : String) → v ≢ identified d.user_id email)
        → Has server.world
        → Has (serve_identified iso q v server).1.world
    identified-Has iso q (refused message) server foreign h = h
    identified-Has iso q (identified user_id email) server foreign h =
        passed-Has iso q.now user_id q.job_request (limit q user_id q.job_request server.counters)
          server.world (λ same. foreign email (ap (λ u. identified u email) (sym same))) h

    module _ ⦃a : Accounts⦄ where
      -- A request to a route of jobs, whatever it asks for and whatever Redis answers, leaves every
      -- job of every other user as it is: the document of a job is the same after a request that
      -- the middleware does not take as one of the job's owner.
      pub serve_isolated :
          (iso : ℕ → String) (q : Request) (server : Server)
          → document n server.world ≡ some d
          → ((email : String) → authenticate q.now q.authorization ≢ identified d.user_id email)
          → document n (serve iso q server).1.world ≡ some d
      unfolding serve
      serve_isolated iso q server stored foreign =
          identified-Has iso q (authenticate q.now q.authorization) server foreign stored
