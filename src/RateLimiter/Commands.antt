-- ===== src/RateLimiter/Commands.antt =====
-- Redis keys that hold a counter, as far as middlewares/rateLimiter.js uses them.
use ai_distributed_job_platf.Prelude.{
  ℕ, suc, ◌+◌, ◌≤◌, String, ◌≡◌, Bool, Option, none, some, ltb, str_eq, if◌then◌else◌,
}

-- A counter and the time at which its key ends; `none` if it never ends.
abbrev pub Counter : Type 0
Counter = ℕ × Option ℕ

-- What is there at a time.
abbrev pub live : ℕ → Option Counter → Option Counter
live t none = none
live t (some (n, none)) = some (n, none)
live t (some (n, some e)) = if ltb t e then some (n, some e) else none

abbrev pub incremented : Option Counter → Counter
incremented none = (1, none)
incremented (some (n, e)) = (suc n, e)

abbrev pub ending : ℕ → Option Counter → Option Counter
ending e none = none
ending e (some (n, old)) = some (n, some e)

pub record Counters : Type 1 where
  pub Store : Type 0
  -- What a key holds at a time.
  pub view : String → ℕ → Store → Option Counter
  pub incr : String → ℕ → Store → ℕ × Store
  -- `EXPIRE key seconds` at a time.
  pub expire : String → ℕ → ℕ → Store → Store
  pub ttl : String → ℕ → Store → Option ℕ
  pub incr_count :
      (k : String) (now : ℕ) (store : Store)
      → (incr k now store).0 ≡ (incremented (view k now store)).0
  pub view-incr :
      (k : String) (now t : ℕ) (store : Store)
      → now ≤ t
      → view k t (incr k now store).1 ≡ live t (some (incremented (view k now store)))
  pub view-incr_other :
      (k j : String) (now t : ℕ) (store : Store)
      → str_eq k j ≡ Bool.false
      → view j t (incr k now store).1 ≡ view j t store
  pub view-expire :
      (k : String) (seconds now t : ℕ) (store : Store)
      → now ≤ t
      → view k t (expire k seconds now store) ≡ live t (ending (now + seconds) (view k now store))
  pub view-expire_other :
      (k j : String) (seconds now t : ℕ) (store : Store)
      → str_eq k j ≡ Bool.false
      → view j t (expire k seconds now store) ≡ view j t store
