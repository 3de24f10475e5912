-- ===== src/Worker/Promoting.antt =====
-- Moving due jobs back into the main queue (worker/worker.js, `promoteReadyJobs`).
use ai_distributed_job_platf.Prelude.{
  ℕ, ◌≡◌, refl, sym, ap, subst, ◌∙◌, inl, inr, String, true, false, List, [], ◌∷◌, Option, none,
  some, ok, ◌==◌, ==_iff, ==_refl, if◌then◌else◌, includes, IsDistinct, Option-cases, arith,
}
use ai_distributed_job_platf.Models.Job.{Job, queued, push_history}
use ai_distributed_job_platf.Services.{Services}
use ai_distributed_job_platf.Services.Mongo.{at_id}
use ai_distributed_job_platf.Services.Redis.{is_due}
use ai_distributed_job_platf.Services.World.{World, document, for_each}
use ai_distributed_job_platf.Queue.{compute_score, push_job_to_queue, promote_due_delayed_jobs}
use ai_distributed_job_platf.Queue.Promotion.{promote_due_delayed_jobs-Promotion}
use ai_distributed_job_platf.Worker.{entry}
use ai_distributed_job_platf.Worker.Loops.{save_promoted, promote_job, promote_ready_jobs}
use ai_distributed_job_platf.Worker.Attempt.{saved_status_lem}

-- A document after its promotion.
abbrev pub promoted : String → ℕ → Job → Job
promoted worker_id now job =
    push_history (entry queued now worker_id "Promoted from delayed queue, ready for retry")
      (record job { status = queued })

save_promoted_same :
    (worker_id : String) (now : ℕ) (job : Job)
    → save_promoted worker_id now job job ≡ promoted worker_id now job
save_promoted_same worker_id now job = rw (saved_status_lem job.status queued)

-- The score in the main queue of a job that was promoted; an id without a document gets none.
abbrev pub promoted_score : ℕ → Option Job → Option ℕ → Option ℕ
promoted_score now none old = old
promoted_score now (some job) old = some (compute_score job.priority now)

apart_here :
    (m n : ℕ) (ids : List ℕ) → includes m ids ≡ false → (n == m) ≡ true → includes n ids ≡ false
apart_here m n ids apart e = subst (λ k. includes k ids ≡ false) (sym ((==_iff n m).0 e)) apart

module _ ⦃s : Services⦄ (worker_id : String) (now : ℕ) where
  -- What a promotion of the ids in `ids` makes of every document and every score.
  pub record Promoted (ids : List ℕ) (w w' : World) : Type 0 where
    pub documents :
        (n : ℕ)
        → document n w'
          ≡ (if includes n ids then at_id (document n w) (promoted worker_id now) else document n w)
    pub scores :
        (n : ℕ)
        → s.zscore n w'.queue ≡ (
            if includes n ids
            then promoted_score now (document n w) (s.zscore n w.queue)
            else s.zscore n w.queue)
    pub same_delayed : w'.delayed ≡ w.delayed
    pub redis_up : w'.redis_up ≡ w.redis_up

  same_document :
      (m n : ℕ) (w : World) (o : Option Job) → document m w ≡ o → (m == n) ≡ true → document n w ≡ o
  same_document m n w o here e = subst (λ k. document k w ≡ o) ((==_iff m n).0 e) here

  promote_job-found :
      (m : ℕ) (w : World) (job : Job)
      → w.redis_up ≡ true
      → document m w ≡ some job
      → ((promote_job worker_id now m w).0 ≡ ok tt)
        × Promoted (m ∷ []) w (promote_job worker_id now m w).1
  unfolding promote_job push_job_to_queue includes
  promote_job-found m w job up here =
      rw (here, up)
        (
          refl,
          record {
            documents = λ n. ground (
              arith,
              s.find_by_id-updated m n (λ _. true) (save_promoted worker_id now job) w.jobs,
              same_document m n w (some job) here,
              save_promoted_same worker_id now job,
            );
            scores = λ n. ground (
              arith,
              s.zscore-zadd (compute_score job.priority now) m n w.queue,
              same_document m n w (some job) here,
            );
            same_delayed = refl;
            redis_up = refl;
          },
        )

  pub promote_job_lem :
      (m : ℕ) (w : World) (job : Job)
      → w.redis_up ≡ true
      → document m w ≡ some job
      → (document m (promote_job worker_id now m w).1 ≡ some (promoted worker_id now job))
        × (s.zscore m (promote_job worker_id now m w).1.queue
            ≡ some (compute_score job.priority now))
  unfolding includes
  promote_job_lem m w job up here =
      let (done, p) = promote_job-found m w job up here in
      (
        p.documents m ∙ rw (==_refl m) (ap (λ o. at_id o (promoted worker_id now)) here),
        p.scores m ∙ rw (==_refl m) (ap (λ o. promoted_score now o (s.zscore m w.queue)) here),
      )

  promote_job-missing :
      (m : ℕ) (w : World)
      → document m w ≡ none
      → ((promote_job worker_id now m w).0 ≡ ok tt)
        × Promoted (m ∷ []) w (promote_job worker_id now m w).1
  unfolding promote_job includes
  promote_job-missing m w gone = rw gone (
    refl,
    record {
      documents = λ n. ground (arith, same_document m n w none gone);
      scores = λ n. ground (arith, same_document m n w none gone);
      same_delayed = refl;
      redis_up = refl;
    },
  )

  promote_job-Promoted :
      (m : ℕ) (w : World)
      → w.redis_up ≡ true
      → ((promote_job worker_id now m w).0 ≡ ok tt)
        × Promoted (m ∷ []) w (promote_job worker_id now m w).1
  promote_job-Promoted m w up = elim (Option-cases (document m w)) [
    | inl gone ↦ promote_job-missing m w gone
    | inr (job, here) ↦ promote_job-found m w job up here
  ]

  -- A promotion of one id and then of others, all different, is a promotion of all.
  Promoted-cons :
      (m : ℕ) (ids : List ℕ) (w v u : World)
      → includes m ids ≡ false
      → Promoted (m ∷ []) w v
      → Promoted ids v u
      → Promoted (m ∷ ids) w u
  unfolding includes
  Promoted-cons m ids w v u apart first rest = record {
    documents = λ n. ground (arith, first.documents n, rest.documents n, apart_here m n ids);
    scores =
        λ n. ground (arith, first.documents n, first.scores n, rest.scores n, apart_here m n ids);
    same_delayed = rest.same_delayed ∙ first.same_delayed;
    redis_up = rest.redis_up ∙ first.redis_up;
  }

  loop-Promoted :
      (ids : List ℕ) (w : World)
      → IsDistinct ids
      → w.redis_up ≡ true
      → ((for_each (promote_job worker_id now) ids w).0 ≡ ok tt)
        × Promoted ids w (for_each (promote_job worker_id now) ids w).1
  unfolding for_each includes
  loop-Promoted [] w distinct up = (
    refl,
    record { documents = λ n. refl; scores = λ n. refl; same_delayed = refl; redis_up = refl },
  )
  loop-Promoted (m ∷ ids) w distinct up =
      let (done, first) = promote_job-Promoted m w up in
      let (done', rest) =
        loop-Promoted ids (promote_job worker_id now m w).1 distinct.1 (first.redis_up ∙ up) in
      rw done (done', Promoted-cons m ids w _ _ distinct.0 first rest)

  -- When Redis answers, a round of promotion ends well. Exactly the ids in the delayed queue whose
  -- ready time is not after `now` leave it; those that have a document become QUEUED and enter the
  -- main queue with the score of their priority and `now`; all other documents and queue entries
  -- stay.
  pub promote_ready_jobs_lem :
      (w : World)
      → w.redis_up ≡ true
      → ((promote_ready_jobs worker_id now w).0 ≡ ok tt)
        × ((n : ℕ)
            → let w' = (promote_ready_jobs worker_id now w).1 in
              let due = is_due now (s.zscore n w.delayed) in
              (document n w'
                ≡ (if due then at_id (document n w) (promoted worker_id now) else document n w))
              × (s.zscore n w'.queue ≡ (
                  if due
                  then promoted_score now (document n w) (s.zscore n w.queue)
                  else s.zscore n w.queue))
              × (s.zscore n w'.delayed ≡ (if due then none else s.zscore n w.delayed)))
  unfolding promote_ready_jobs
  promote_ready_jobs_lem w up =
      let (ids, found, promotion) = promote_due_delayed_jobs-Promotion now w up in
      let v = (promote_due_delayed_jobs now w).1 in
      let (done, all) = loop-Promoted ids v promotion.once (promotion.redis_up ∙ up) in
      rw found (
        done,
        λ n.
            let same = ap (λ jobs. s.find_by_id n jobs) promotion.same_jobs in
            let score = ap (s.zscore n) promotion.same_queue in
            (
              ground (arith, all.documents n, promotion.reported n, same),
              ground (arith, all.scores n, promotion.reported n, same, score),
              ap (s.zscore n) all.same_delayed ∙ promotion.left n,
            ),
      )
