-- ===== src/Heartbeat/Beats.antt =====
-- When a worker counts as alive (queue/heartbeat.js).
use ai_distributed_job_platf.Prelude.{
  ℕ, ◌+◌, ◌*◌, ◌≤◌, ◌≡◌, inl, inr, String, true, List, [], ◌∷◌, some, ltb, show, if◌then◌else◌,
  Bool-cases, arith,
}
use ai_distributed_job_platf.Heartbeat.{
  TextKeys, live_text, heartbeat_key, Beat, write_heartbeat, heartbeat_loop, is_worker_alive,
}

-- The time of the last write, given that of the last one before.
abbrev pub last_write : List Beat → ℕ → ℕ
last_write [] last = last
last_write (beat ∷ beats) last = last_write beats (if beat.is_answered then beat.time else last)

-- The beats are in order, none is after the time `t`, and the first not before `from`.
abbrev pub InOrder : ℕ → List Beat → ℕ → Type 0
InOrder from [] t = from ≤ t
InOrder from (beat ∷ beats) t = (from ≤ beat.time) × InOrder beat.time beats t

InOrder-end : (from : ℕ) (beats : List Beat) (t : ℕ) → InOrder from beats t → from ≤ t
InOrder-end from [] t h = h
InOrder-end from (beat ∷ beats) t (first, rest) =
    let later = InOrder-end beat.time beats t rest in omega arith

module _ ⦃k : TextKeys⦄ (worker_id : String) (ttl_seconds : ℕ) where
  -- The key is the one of a write at the time `last`, from then on.
  abbrev Written : ℕ → k.Store → Type 0
  Written last store =
      (t : ℕ)
      → last ≤ t
      → k.get (heartbeat_key worker_id) t store
        ≡ live_text t (some (show last, last + ttl_seconds * 1000))

  write-Written :
      (now : ℕ) (store : k.Store) → Written now (write_heartbeat worker_id ttl_seconds now store)
  unfolding write_heartbeat
  write-Written now store t later =
      k.get-set_ex (heartbeat_key worker_id) (show now) ttl_seconds now t store later

  loop_alive :
      (beats : List Beat) (last from t : ℕ) (store : k.Store)
      → Written last store
      → last ≤ from
      → InOrder from beats t
      → is_worker_alive worker_id t (heartbeat_loop worker_id ttl_seconds beats store)
        ≡ ltb t (last_write beats last + ttl_seconds * 1000)
  unfolding is_worker_alive heartbeat_loop
  loop_alive [] last from t store written after order =
      let here = written t (omega arith) in ground (arith, here)
  loop_alive (beat ∷ beats) last from t store written after (first, rest) =
      elim (Bool-cases beat.is_answered) [
        | inl answered ↦ rw answered (
            loop_alive beats beat.time beat.time t
              (write_heartbeat worker_id ttl_seconds beat.time store)
              (write-Written beat.time store) (omega arith) rest)
        | inr lost ↦ rw lost (loop_alive beats last beat.time t store written (omega arith) rest)
      ]

  -- After a first write, and whatever later writes are lost, a worker counts as alive exactly until
  -- the time to live of its last write has passed: for the beats of its loop in order, up to a time,
  -- it is alive then if the last beat that Redis answered is less than the time to live ago.
  pub is_worker_alive_lem :
      (now : ℕ) (beats : List Beat) (t : ℕ) (store : k.Store)
      → InOrder now beats t
      → is_worker_alive worker_id t (
          heartbeat_loop worker_id ttl_seconds
            (record { time = now; is_answered = true } ∷ beats)
            store)
        ≡ ltb t (last_write beats now + ttl_seconds * 1000)
  unfolding heartbeat_loop
  is_worker_alive_lem now beats t store order =
      loop_alive beats now now t (write_heartbeat worker_id ttl_seconds now store)
        (write-Written now store) (omega arith) order
