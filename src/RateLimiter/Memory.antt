-- ===== src/RateLimiter/Memory.antt =====
-- Counters in memory, with every law proved: they show that what the limiter assumes of Redis can
-- hold. They stand for no code of the repository.
use ai_distributed_job_platf.Prelude.{
  ℕ, ◌+◌, ◌-◌, String, ◌≡◌, refl, false, Option, none, some, str_eq, str_eq_iff, if◌then◌else◌,
}
use ai_distributed_job_platf.RateLimiter.Commands.{Counter, Counters, live, incremented, ending}

abbrev pub Keys : Type 0
Keys = String → Option Counter

abbrev pub remaining : ℕ → Option Counter → Option ℕ
remaining now none = none
remaining now (some (n, none)) = none
remaining now (some (n, some e)) = some (e - now)

abbrev pub write : String → Option Counter → Keys → Keys
write k o keys j = if str_eq k j then o else keys j

abbrev pub view : String → ℕ → Keys → Option Counter
view k t keys = live t (keys k)

pub view-write :
    (k : String) (t : ℕ) (o : Option Counter) (keys : Keys) → view k t (write k o keys) ≡ live t o
view-write k t o keys = rw ((str_eq_iff k k).1 refl) refl

pub view-write_other :
    (k j : String) (t : ℕ) (o : Option Counter) (keys : Keys)
    → str_eq k j ≡ false
    → view j t (write k o keys) ≡ view j t keys
view-write_other k j t o keys apart = rw apart refl

instance abbrev pub memory_counters : Counters
memory_counters = record {
  Store = Keys;
  view = view;
  incr = λ k now keys.
      ((incremented (view k now keys)).0, write k (some (incremented (view k now keys))) keys);
  expire = λ k seconds now keys. write k (ending (now + seconds) (view k now keys)) keys;
  ttl = λ k now keys. remaining now (view k now keys);
  incr_count = λ k now keys. refl;
  view-incr = λ k now t keys later. view-write k t (some (incremented (view k now keys))) keys;
  view-incr_other = λ k j now t keys apart.
      view-write_other k j t (some (incremented (view k now keys))) keys apart;
  view-expire =
      λ k seconds now t keys later. view-write k t (ending (now + seconds) (view k now keys)) keys;
  view-expire_other = λ k j seconds now t keys apart.
      view-write_other k j t (ending (now + seconds) (view k now keys)) keys apart;
}
