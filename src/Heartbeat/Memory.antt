-- ===== src/Heartbeat/Memory.antt =====
-- Texts that end at a time, in memory: they stand for no code of the repository.
use ai_distributed_job_platf.Prelude.{
  ℕ, ◌+◌, ◌*◌, ◌≤◌, String, ◌≡◌, refl, false, Option, some, str_eq, str_eq_iff, if◌then◌else◌,
}
use ai_distributed_job_platf.Heartbeat.{TextKeys, live_text}

abbrev pub Texts : Type 0
Texts = String → Option (String × ℕ)

abbrev pub write : String → String → ℕ → ℕ → Texts → Texts
write key text seconds now texts other =
    if str_eq key other then some (text, now + seconds * 1000) else texts other

abbrev pub read : String → ℕ → Texts → Option String
read key t texts = live_text t (texts key)

pub read-write :
    (key text : String) (seconds now t : ℕ) (texts : Texts)
    → now ≤ t
    → read key t (write key text seconds now texts)
      ≡ live_text t (some (text, now + seconds * 1000))
read-write key text seconds now t texts later = rw ((str_eq_iff key key).1 refl) refl

pub read-write_other :
    (key other text : String) (seconds now t : ℕ) (texts : Texts)
    → str_eq key other ≡ false
    → read other t (write key text seconds now texts) ≡ read other t texts
read-write_other key other text seconds now t texts apart = rw apart refl

instance abbrev pub memory_texts : TextKeys
memory_texts = record {
  Store = Texts;
  set_ex = write;
  get = read;
  get-set_ex = read-write;
  get-set_ex_other = read-write_other;
}
