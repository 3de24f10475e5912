-- ===== src/Services/Memory/Documents.antt =====
-- A collection as the documents below a bound; a new document gets the bound as its id.
use ai_distributed_job_platf.Prelude.{
  ℕ, zero, suc, ◌<◌, ◌≤◌, String, ◌≡◌, ◌≢◌, refl, ap, ==_iff, ==_refl, includes, keys, inl, inr,
  Bool, true, List, [], ◌∷◌, Option, none, some, ltb, ◌==◌, str_eq, str_eq_iff, if◌then◌else◌, All,
  Bool-cases, arith,
}
use ai_distributed_job_platf.Models.Job.{Job}
use ai_distributed_job_platf.Services.Mongo.{JobCollection, updated, found_and_updated, at_id}

pub record Documents : Type 0 where
  pub size : ℕ
  pub at : ℕ → Job

abbrev pub document : ℕ → Documents → Option Job
document i d = if ltb i d.size then some (d.at i) else none

abbrev pub by_key_below : ℕ → String → Documents → Option (ℕ × Job)
by_key_below zero key d = none
by_key_below (suc k) key d =
    let rest = by_key_below k key d in
    if str_eq (d.at k).idempotency_key key then some (k, d.at k) else rest

abbrev pub matching_below : ℕ → (Job → Bool) → Documents → List (ℕ × Job)
matching_below zero matches d = []
matching_below (suc k) matches d =
    let rest = matching_below k matches d in if matches (d.at k) then (k, d.at k) ∷ rest else rest

abbrev pub update : ℕ → (Job → Bool) → (Job → Job) → Documents → Option Job × Documents
update i matches change d = (
  found_and_updated matches change (document i d),
  record d { at = λ j. if i == j then updated matches change (d.at j) else d.at j },
)

abbrev pub insert_at : Option (ℕ × Job) → Job → Documents → Option ℕ × Documents
insert_at (some found) job d = (none, d)
insert_at none job d =
    (some d.size, record { size = suc d.size; at = λ j. if d.size == j then job else d.at j })

by_key_sound :
    (k : ℕ) (key : String) (d : Documents) (i : ℕ) (job : Job)
    → by_key_below k key d ≡ some (i, job)
    → (i < k) × (d.at i ≡ job) × (job.idempotency_key ≡ key)
by_key_sound zero key d i job h = cc
by_key_sound (suc k) key d i job h =
    ground (arith, by_key_sound k key d i job, str_eq_iff (d.at k).idempotency_key key)

by_key_complete :
    (k : ℕ) (key : String) (d : Documents) (i : ℕ)
    → by_key_below k key d ≡ none
    → i < k
    → (d.at i).idempotency_key ≢ key
by_key_complete zero key d i h l e = absurd (omega arith)
by_key_complete (suc k) key d i h l e = elim (Bool-cases (i == k)) [
  | inl s ↦ ground (
    arith,
    str_eq_iff (d.at k).idempotency_key key,
    ap (λ j. (d.at j).idempotency_key) ((==_iff i k).0 s),
  )
  | inr o ↦ ground (arith, by_key_complete k key d i)
]

matching_sound :
    (k : ℕ) (matches : Job → Bool) (d : Documents)
    → k ≤ d.size
    → All (λ e. (document e.0 d ≡ some e.1) × (matches e.1 ≡ true)) (matching_below k matches d)
matching_sound zero matches d l = tt
matching_sound (suc k) matches d l = ground (arith, matching_sound k matches d)

matching_complete :
    (k : ℕ) (matches : Job → Bool) (d : Documents) (i : ℕ)
    → i < k
    → matches (d.at i) ≡ true
    → includes i (keys (matching_below k matches d)) ≡ true
unfolding includes
matching_complete zero matches d i l h = absurd (omega arith)
matching_complete (suc k) matches d i l h = elim (Bool-cases (i == k)) [
  | inl e ↦ ground (arith, ap (λ j. matches (d.at j)) ((==_iff i k).0 e), ==_refl k)
  | inr e ↦ ground (arith, matching_complete k matches d i)
]

abbrev pub by_key : String → Documents → Option (ℕ × Job)
by_key key d = by_key_below d.size key d

abbrev pub create : Job → Documents → Option ℕ × Documents
create job d = insert_at (by_key job.idempotency_key d) job d

pub document-update :
    (i j : ℕ) (matches : Job → Bool) (change : Job → Job) (d : Documents)
    → document j (update i matches change d).1
      ≡ (if i == j then at_id (document j d) (updated matches change) else document j d)
document-update i j matches change d = ground arith

pub by_key_sound_lem :
    (key : String) (d : Documents) (i : ℕ) (job : Job)
    → by_key key d ≡ some (i, job)
    → (document i d ≡ some job) × (job.idempotency_key ≡ key)
by_key_sound_lem key d i job h = ground (arith, by_key_sound d.size key d i job h)

pub by_key_complete_lem :
    (key : String) (d : Documents) (i : ℕ) (job : Job)
    → by_key key d ≡ none
    → document i d ≡ some job
    → job.idempotency_key ≢ key
by_key_complete_lem key d i job h e same = ground (arith, by_key_complete d.size key d i h)

pub matching_lem :
    (matches : Job → Bool) (d : Documents)
    → All
        (λ e. (document e.0 d ≡ some e.1) × (matches e.1 ≡ true))
        (matching_below d.size matches d)
matching_lem matches d = matching_sound d.size matches d (omega arith)

pub matching_complete_lem :
    (matches : Job → Bool) (d : Documents) (i : ℕ) (job : Job)
    → document i d ≡ some job
    → matches job ≡ true
    → includes i (keys (matching_below d.size matches d)) ≡ true
matching_complete_lem matches d i job h m =
    matching_complete d.size matches d i (ground arith) (ground arith)

pub create_fresh :
    (job : Job) (d : Documents)
    → by_key job.idempotency_key d ≡ none
    → (i : ℕ) × ((create job d).0 ≡ some i)
create_fresh job d h = (d.size, rw h)

pub create_taken :
    (job : Job) (d : Documents) (e : ℕ × Job)
    → by_key job.idempotency_key d ≡ some e
    → create job d ≡ (none, d)
create_taken job d e h = rw h

insert_size :
    (o : Option (ℕ × Job)) (job : Job) (d : Documents) (i : ℕ)
    → (insert_at o job d).0 ≡ some i
    → (i ≡ d.size) × (o ≡ none)
insert_size none job d i h = ground arith
insert_size (some e) job d i h = cc

document-insert :
    (job : Job) (d : Documents) (j : ℕ)
    → document j (insert_at none job d).1 ≡ (if d.size == j then some job else document j d)
document-insert job d j = ground arith

pub document-create :
    (job : Job) (d : Documents) (i j : ℕ)
    → (create job d).0 ≡ some i
    → document j (create job d).1 ≡ (if i == j then some job else document j d)
document-create job d i j h =
    let (size, fresh) = insert_size (by_key job.idempotency_key d) job d i h in
    rw (size, fresh) (document-insert job d j)

pub create_id :
    (job : Job) (d : Documents) (i : ℕ) → (create job d).0 ≡ some i → document i d ≡ none
create_id job d i h =
    let (size, fresh) = insert_size (by_key job.idempotency_key d) job d i h in ground arith

abbrev pub memory_jobs : JobCollection
memory_jobs = record {
  Jobs = Documents;
  find_by_id = document;
  find_by_key = by_key;
  find = λ matches d. matching_below d.size matches d;
  find_one_and_update = update;
  create = create;
  updated_document = λ i matches change d. refl;
  find_by_id-updated = document-update;
  find_by_key-sound = by_key_sound_lem;
  find_by_key-complete = by_key_complete_lem;
  find-sound = matching_lem;
  find-complete = matching_complete_lem;
  create-fresh = create_fresh;
  create-taken = create_taken;
  find_by_id-created = document-create;
  created_id = create_id;
}
