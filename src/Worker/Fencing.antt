-- ===== src/Worker/Fencing.antt =====
-- The ownership check of `finalizeJob` (worker/worker.js).
use ai_distributed_job_platf.Prelude.{
  ℕ, ◌≡◌, refl, ap, ◌∙◌, String, Bool, true, false, Option, none, some, Outcome, ok,
}
use ai_distributed_job_platf.Models.Job.{Job, HistoryEntry, push_history}
use ai_distributed_job_platf.Services.{Services}
use ai_distributed_job_platf.Services.Mongo.{at_id}
use ai_distributed_job_platf.Services.World.{World, document, SameButFor, SameQueues, Untouched}
use ai_distributed_job_platf.Services.Updates.{matches_in, update-hit, update-other, update-miss}
use ai_distributed_job_platf.Worker.{owner_eq, finalize_job}

-- Whether a document is there and locked by the expected owner.
abbrev pub is_owned : Option String → Option Job → Bool
is_owned expected_owner = matches_in (λ d. owner_eq d.locked_by expected_owner)

module _ ⦃s : Services⦄ (job_id : ℕ) (expected_owner : Option String) (updates : Job → Job)
    (e : HistoryEntry) (w : World) where
  -- What a call of `finalizeJob` answers, and what it leaves.
  pub record Landed (r : Outcome (Option Job)) (w' : World) : Type 0 where
    pub answer : r ≡ ok (at_id (document job_id w) (λ d. push_history e (updates d)))
    pub stored : document job_id w' ≡ at_id (document job_id w) (λ d. push_history e (updates d))
    pub others : SameButFor job_id w w'
    pub queues : SameQueues w w'
    pub events : w'.events ≡ w.events

  finalize_job-Landed :
      is_owned expected_owner (document job_id w) ≡ true
      → Landed
          (finalize_job job_id expected_owner updates e w).0
          (finalize_job job_id expected_owner updates e w).1
  unfolding finalize_job
  finalize_job-Landed h =
      let owned = λ (d : Job). owner_eq d.locked_by expected_owner in
      let change = λ (d : Job). push_history e (updates d) in
      let (found, written) = update-hit job_id owned change w.jobs h in
      record {
        answer = ap ok found;
        stored = written;
        others = λ j d. update-other job_id owned change w.jobs j d;
        queues = record { queue = refl; delayed = refl; redis_up = refl };
        events = refl;
      }

  -- Fencing: if the document is not locked by the expected owner, or is not there, the write does
  -- not land. The answer is `null`, and all documents, the queues and the events stay as they were.
  pub finalize_job-Untouched :
      is_owned expected_owner (document job_id w) ≡ false
      → ((finalize_job job_id expected_owner updates e w).0 ≡ ok none)
        × Untouched w (finalize_job job_id expected_owner updates e w).1
  unfolding finalize_job
  finalize_job-Untouched h =
      let owned = λ (d : Job). owner_eq d.locked_by expected_owner in
      let change = λ (d : Job). push_history e (updates d) in
      let (missed, same) = update-miss job_id owned change w.jobs h in
      (
        ap ok missed,
        record {
          documents = same;
          queues = record { queue = refl; delayed = refl; redis_up = refl };
          events = refl;
        },
      )

-- A write to the job `job_id` landed: the new document is the answer and is stored, and nothing
-- else has changed.
module _ ⦃s : Services⦄ where
  pub record Written (job_id : ℕ) (d : Job) (w : World) (r : Outcome (Option Job) × World)
      : Type 0 where
    pub answer : r.0 ≡ ok (some d)
    pub stored : document job_id r.1 ≡ some d
    pub others : SameButFor job_id w r.1
    pub queues : SameQueues w r.1
    pub events : r.1.events ≡ w.events

  -- The owner's write lands on its job, and on nothing else.
  pub finalize_job-Written :
      (job_id : ℕ) (expected_owner : Option String) (updates : Job → Job) (e : HistoryEntry)
      (w : World) (d : Job)
      → document job_id w ≡ some d
      → owner_eq d.locked_by expected_owner ≡ true
      → Written job_id
          (push_history e (updates d))
          w
          (finalize_job job_id expected_owner updates e w)
  finalize_job-Written job_id expected_owner updates e w d here owned =
      let l = finalize_job-Landed job_id expected_owner updates e w (rw here owned) in
      record {
        answer = l.answer ∙ ap (λ o. ok (at_id o (λ x. push_history e (updates x)))) here;
        stored = l.stored ∙ ap (λ o. at_id o (λ x. push_history e (updates x))) here;
        others = l.others;
        queues = l.queues;
        events = l.events;
      }
