-- ===== src/Heartbeat.antt =====
-- src/queue/heartbeat.js: the key with which a worker shows that it is alive. Redis is a parameter:
-- texts that end at a time. Times are in milliseconds.
pub mod Beats
pub mod Memory
mod Tests
use ai_distributed_job_platf.Prelude.{
  ℕ, ◌+◌, ◌*◌, ◌≤◌, String, ◌≡◌, Bool, true, false, List, [], ◌∷◌, Option, none, some, ltb, str_eq,
  show, template, if◌then◌else◌,
}

-- What a key holds: a text and the time at which the key ends.
abbrev pub live_text : ℕ → Option (String × ℕ) → Option String
live_text t none = none
live_text t (some (text, ending)) = if ltb t ending then some text else none

pub record TextKeys : Type 1 where
  pub Store : Type 0
  -- `SET key value EX seconds` at a time, and `GET key` at a time.
  pub set_ex : String → String → ℕ → ℕ → Store → Store
  pub get : String → ℕ → Store → Option String
  pub get-set_ex :
      (key text : String) (seconds now t : ℕ) (store : Store)
      → now ≤ t
      → get key t (set_ex key text seconds now store)
        ≡ live_text t (some (text, now + seconds * 1000))
  pub get-set_ex_other :
      (key other text : String) (seconds now t : ℕ) (store : Store)
      → str_eq key other ≡ Bool.false
      → get other t (set_ex key text seconds now store) ≡ get other t store

abbrev pub heartbeat_key : String → String
heartbeat_key worker_id = template ("worker:heartbeat:" ∷ worker_id ∷ [])

-- A firing of the interval at a time, and whether Redis answers the command; a rejection is logged.
pub record Beat : Type 0 where
  pub time : ℕ
  pub is_answered : Bool

module _ ⦃k : TextKeys⦄ where
  unfoldable pub write_heartbeat : String → ℕ → ℕ → k.Store → k.Store
  write_heartbeat worker_id ttl_seconds now store =
      k.set_ex (heartbeat_key worker_id) (show now) ttl_seconds now store

  -- `startHeartbeatLoop`: the first write, and those of the interval.
  unfoldable pub heartbeat_loop : String → ℕ → List Beat → k.Store → k.Store
  heartbeat_loop worker_id ttl_seconds [] store = store
  heartbeat_loop worker_id ttl_seconds (beat ∷ beats) store =
      heartbeat_loop worker_id ttl_seconds beats
        (if beat.is_answered then write_heartbeat worker_id ttl_seconds beat.time store else store)

  abbrev is_some : Option String → Bool
  is_some none = false
  is_some (some text) = true

  -- `isWorkerAlive` at a time: `val !== null`.
  unfoldable pub is_worker_alive : String → ℕ → k.Store → Bool
  is_worker_alive worker_id t store = is_some (k.get (heartbeat_key worker_id) t store)
