-- ===== src/Services/World.antt =====
-- What the API processes and the workers share, and the shape of the code that reads and writes it:
-- an `async` function is a function from the state to an outcome and the next state. A call that
-- throws keeps what was written before.
use ai_distributed_job_platf.Prelude.{
  ℕ, String, ◌≡◌, ◌≢◌, Bool, true, false, List, [], ◌∷◌, ◌++◌, Option, Error, plain_error, Outcome,
  ok, threw,
}
use ai_distributed_job_platf.Models.Job.{Job, Status}
use ai_distributed_job_platf.Services.{Services}

-- The events of `publishEvent` (kafka/producer.js) with their payloads, without `emittedAt`.
pub data Event : Type 0 where
  job_created : ℕ → ℕ → String → ℕ → Option ℕ → Event
  job_started : ℕ → String → String → ℕ → Event
  job_completed : ℕ → String → ℕ → Event
  job_retrying : ℕ → String → ℕ → ℕ → ℕ → String → Event
  job_dlq : ℕ → String → ℕ → String → Event
  job_cancelled : ℕ → Status → Event
  job_cancellation_requested : ℕ → Event

module _ ⦃s : Services⦄ where
  pub record World : Type 0 where
    pub jobs : s.Jobs
    -- The sorted sets `jobs:queue` and `jobs:delayed`.
    pub queue : s.ZSet
    pub delayed : s.ZSet
    -- What was handed to `publishEvent`, the newest last.
    pub events : List Event
    -- Whether Redis answers commands. A command that it does not answer rejects.
    pub redis_up : Bool

  abbrev pub M : Type 0 → Type 0
  M A = World → Outcome A × World

  abbrev pub pure : {A : Type 0} → A → M A
  pure a w = (ok a, w)

  abbrev pub throw : {A : Type 0} → Error → M A
  throw e w = (threw e, w)

  abbrev pub then_with : {A B : Type 0} → (A → M B) → Outcome A → M B
  then_with f (ok a) w = f a w
  then_with f (threw e) w = (threw e, w)

  infixl 5 ◌>>=◌ ◌>>◌
  abbrev pub ◌>>=◌ : {A B : Type 0} → M A → (A → M B) → M B
  ◌>>=◌ m f w = then_with f (m w).0 (m w).1

  abbrev pub ◌>>◌ : {B : Type 0} → M (Unit {0}) → M B → M B
  ◌>>◌ m k w = then_with (λ _. k) (m w).0 (m w).1

  abbrev pub redis_error : Error
  redis_error = plain_error "Reached the max retries per request limit"

  abbrev pub answered : {A : Type 0} → Bool → A × World → World → Outcome A × World
  answered true r w = (ok r.0, r.1)
  answered false r w = (threw redis_error, w)

  -- A command on one of the two sets, given how to read and to write that set.
  abbrev pub redis_command : {A : Type 0} → (World → A × World) → M A
  redis_command command w = answered w.redis_up (command w) w

  abbrev pub with_jobs : {A : Type 0} → (s.Jobs → A × s.Jobs) → M A
  with_jobs f w = (ok (f w.jobs).0, record w { jobs = (f w.jobs).1 })

  abbrev pub read_jobs : {A : Type 0} → (s.Jobs → A) → M A
  read_jobs f w = (ok (f w.jobs), w)

  -- kafka/producer.js, `publishEvent`: it never throws, and the code does not wait for it.
  abbrev pub publish_event : Event → M (Unit {0})
  publish_event e w = (ok tt, record w { events = w.events ++ e ∷ [] })

  -- `for (const x of xs) await body(x)`: a throw ends the loop.
  unfoldable pub for_each : {A : Type 0} → (A → M (Unit {0})) → List A → M (Unit {0})
  for_each body [] = pure tt
  for_each body (x ∷ xs) = body x >> for_each body xs

  abbrev pub document : ℕ → World → Option Job
  document job_id w = s.find_by_id job_id w.jobs

  -- The documents are the same.
  abbrev pub SameDocuments : World → World → Type 0
  SameDocuments w w' = (j : ℕ) → document j w' ≡ document j w

  -- Only the document of one id may differ.
  abbrev pub SameButFor : ℕ → World → World → Type 0
  SameButFor job_id w w' = (j : ℕ) → job_id ≢ j → document j w' ≡ document j w

  -- Nothing but documents differs.
  pub record SameQueues (w w' : World) : Type 0 where
    pub queue : w'.queue ≡ w.queue
    pub delayed : w'.delayed ≡ w.delayed
    pub redis_up : w'.redis_up ≡ w.redis_up

  -- An operation left the documents, the queues and the events as they were.
  pub record Untouched (w w' : World) : Type 0 where
    pub documents : SameDocuments w w'
    pub queues : SameQueues w w'
    pub events : w'.events ≡ w.events
