-- ===== src/Lifecycle/Moves.antt =====
-- How the place of one job changes with its document and its queue entries.
use ai_distributed_job_platf.Prelude.{
  ℕ, ◌≡◌, ◌≢◌, inl, inr, refl, sym, subst, ==_iff, Bool-cases, String, Bool, true, false, Option,
  none, some, ◌==◌, arith,
}
use ai_distributed_job_platf.Models.Job.{Job, queued, processing}
use ai_distributed_job_platf.Services.{Services}
use ai_distributed_job_platf.Services.Redis.{is_member}
use ai_distributed_job_platf.Services.World.{World, document}
use ai_distributed_job_platf.Lifecycle.{
  Place, waiting, delayed, running, Action, elsewhere, aimed, ◌─◌⟶◌, stay, place_of, place,
}

-- The job `n` goes from where it is in `w` along an edge of the action, to where it is in `w'`.
pub record Moves ⦃s : Services⦄ (a : Action) (n : ℕ) (w w' : World) (p : Place) : Type 0 where
  pub to : Place
  pub there : place n w' ≡ some to
  pub edge : p ─ a ⟶ to

module _ ⦃s : Services⦄ where
  -- A job of which nothing has changed.
  pub same-Moves :
      {a : Action} (n : ℕ) (w w' : World) (p : Place)
      → place n w ≡ some p
      → document n w' ≡ document n w
      → s.zscore n w'.queue ≡ s.zscore n w.queue
      → s.zscore n w'.delayed ≡ s.zscore n w.delayed
      → Moves a n w w' p
  same-Moves {a = a} n w w' p here d q e = record { to = p; there = rw (d, q, e) here; edge = stay }

  -- The place of a job whose document is known.
  pub place_found :
      (j : ℕ) (w : World) (d : Job) (p : Place)
      → document j w ≡ some d
      → place j w ≡ some p
      → place_of (some d) (is_member (s.zscore j w.queue)) (is_member (s.zscore j w.delayed))
        ≡ some p
  place_found j w d p found here =
      subst
        (λ o.
          place_of o (is_member (s.zscore j w.queue)) (is_member (s.zscore j w.delayed)) ≡ some p)
        found here

  -- A claim about the job that an operation names, and about all others.
  pub split-Moves :
      {a : Action} (j n : ℕ) (w w' : World) (p : Place)
      → place n w ≡ some p
      → (place j w ≡ some p → Moves a j w w' p)
      → (j ≢ n → Moves a n w w' p)
      → Moves a n w w' p
  split-Moves {a = a} j n w w' p here own other = elim (Bool-cases (j == n)) [
    | inl e ↦
        let same : j ≡ n = (==_iff j n).0 e in
        subst (λ k. Moves a k w w' p) same (own (subst (λ k. place k w ≡ some p) (sym same) here))
    | inr e ↦ other (ground arith)
  ]

  -- The same for an action on the job that is named.
  pub aimed-Moves :
      {a : Action} (j n : ℕ) (w w' : World) (p : Place)
      → place n w ≡ some p
      → (place j w ≡ some p → Moves a j w w' p)
      → (j ≢ n → Moves elsewhere n w w' p)
      → Moves (aimed a (j == n)) n w w' p
  aimed-Moves {a = a} j n w w' p here own other = elim (Bool-cases (j == n)) [
    | inl e ↦
        let same : j ≡ n = (==_iff j n).0 e in
        rw e (
          subst (λ k. Moves a k w w' p) same
            (own (subst (λ k. place k w ≡ some p) (sym same) here)))
    | inr e ↦ rw e (other (ground arith))
  ]

-- What a place says of the document.
pub locked_running :
    (job : Job) (owner : String) (in_queue in_delayed : Bool) (p : Place)
    → place_of (some job) in_queue in_delayed ≡ some p
    → job.locked_by ≡ some owner
    → (job.status ≡ processing) × (in_queue ≡ false) × (in_delayed ≡ false) × (p ≡ running)
locked_running job owner in_queue in_delayed p here locked = ground arith

pub in_queue_waiting :
    (o : Option Job) (in_delayed : Bool) (p : Place)
    → place_of o true in_delayed ≡ some p
    → (job : Job) × (o ≡ some job)
      × (job.status ≡ queued)
      × (job.locked_by ≡ none)
      × (in_delayed ≡ false)
      × (p ≡ waiting)
in_queue_waiting none in_delayed p here = absurd (ground arith)
in_queue_waiting (some job) in_delayed p here =
    (job, refl, ground arith, ground arith, ground arith, ground arith)

pub in_delayed_delayed :
    (o : Option Job) (in_queue : Bool) (p : Place)
    → place_of o in_queue true ≡ some p
    → (job : Job) × (o ≡ some job) × (job.locked_by ≡ none) × (in_queue ≡ false) × (p ≡ delayed)
in_delayed_delayed none in_queue p here = absurd (ground arith)
in_delayed_delayed (some job) in_queue p here =
    (job, refl, ground arith, ground arith, ground arith)
