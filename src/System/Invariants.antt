-- ===== src/System/Invariants.antt =====
-- Invariants of the documents under every interleaving of the processes.
use ai_distributed_job_platf.Prelude.{
  ℕ, ◌≡◌, ◌⊎◌, inl, inr, refl, sym, ap, subst, ◌∙◌, List, [], ◌∷◌, Option, none, some, ◌==◌, ==_iff,
  Bool-cases, arith,
}
use ai_distributed_job_platf.Models.Job.{Job}
use ai_distributed_job_platf.Services.{Services}
use ai_distributed_job_platf.Services.World.{World, document}
use ai_distributed_job_platf.System.{Step, perform, run}
use ai_distributed_job_platf.System.Changes.{IsRecoverable, Later}
use ai_distributed_job_platf.System.Effects.{perform-Effect}
use ai_distributed_job_platf.System.Documents.{
  Later-refl, Later-trans, Continues, Creation, Effect-cases,
}

Continues-some :
    (d : Job) (o o' : Option Job)
    → o ≡ some d
    → Continues o o'
    → (e : Job) × (o' ≡ some e) × Later d e
Continues-some d o o' h c = subst (λ x. Continues x o') h c

-- What was stored before a step that stored `e` by going on.
Continues-back :
    (e : Job) (o o' : Option Job)
    → o' ≡ some e
    → Continues o o'
    → (d : Job) × (o ≡ some d) × Later d e
Continues-back e none o' h c = cc
Continues-back e (some d) o' h (e', same, later) = (d, refl, subst (Later d) (ground arith) later)

module _ ⦃s : Services⦄ where
  cases :
      (step : Step) (w : World)
      → ((j : ℕ) → Continues (document j w) (document j (perform step w)))
        ⊎ ((i : ℕ) × (job : Job) × Creation i job w.jobs (perform step w).jobs)
  cases step w = Effect-cases w.jobs (perform step w).jobs (perform-Effect step w)

  perform-Later :
      (step : Step) (w : World) (j : ℕ) (d : Job)
      → document j w ≡ some d
      → (e : Job) × (document j (perform step w) ≡ some e) × Later d e
  perform-Later step w j d here = elim (cases step w) [
    | inl all ↦ Continues-some d (document j w) (document j (perform step w)) here (all j)
    | inr (i, job, c) ↦
        (d, c.others j (λ e. cc (c.fresh, ap (λ k. document k w) e, here)) ∙ here, Later-refl d)
  ]

  -- No job is ever lost or turned into another one: whatever steps the processes take, in whatever
  -- order and with however old data, each document that is stored stays stored under its id, with
  -- what the user submitted, and its history has only grown.
  pub run-Later :
      (steps : List Step) (w : World) (j : ℕ) (d : Job)
      → document j w ≡ some d
      → (e : Job) × (document j (run steps w) ≡ some e) × Later d e
  unfolding run
  run-Later [] w j d here = (d, here, Later-refl d)
  run-Later (step ∷ steps) w j d here =
      let (e, next, later) = perform-Later step w j d here in
      let (f, last, later') = run-Later steps (perform step w) j e next in
      (f, last, Later-trans d e f later later')

  abbrev pub AllRecoverable : World → Type 0
  AllRecoverable w = (j : ℕ) (d : Job) → document j w ≡ some d → IsRecoverable d

  perform-AllRecoverable :
      (step : Step) (w : World) → AllRecoverable w → AllRecoverable (perform step w)
  perform-AllRecoverable step w h j e stored = elim (cases step w) [
    | inl all ↦
        let (d, before, later) =
          Continues-back e (document j w) (document j (perform step w)) stored (all j) in
        later.recoverable (h j d before)
    | inr (i, job, c) ↦ elim (Bool-cases (i == j)) [
      | inl new ↦ λ p.
          cc (
            c.stored,
            c.waits,
            stored,
            p,
            ap (λ k. document k (perform step w)) ((==_iff i j).0 new),
          )
      | inr old ↦ h j e (sym (c.others j (ground arith)) ∙ stored)
    ]
  ]

  -- Every job that is PROCESSING has an owner and a time at which its lock ends, whatever steps the
  -- processes take: if that is so at the beginning, it is always so.
  pub run-AllRecoverable :
      (steps : List Step) (w : World) → AllRecoverable w → AllRecoverable (run steps w)
  unfolding run
  run-AllRecoverable [] w h = h
  run-AllRecoverable (step ∷ steps) w h =
      run-AllRecoverable steps (perform step w) (perform-AllRecoverable step w h)

  abbrev pub HasDistinctKeys : World → Type 0
  HasDistinctKeys w =
      (i j : ℕ) (d e : Job)
      → document i w ≡ some d
      → document j w ≡ some e
      → d.idempotency_key ≡ e.idempotency_key
      → i ≡ j
