-- ===== src/Events/Delivery.antt =====
-- What Kafka gets of the events (kafka/producer.js, `publishEvent`).
use ai_distributed_job_platf.Prelude.{
  ℕ, ◌≡◌, Bool, true, false, List, [], ◌∷◌, ◌++◌, Outcome, ok, threw, if◌then◌else◌,
}
use ai_distributed_job_platf.Services.World.{Event}
use ai_distributed_job_platf.Events.{Message, message_of, Producer, publish_event}

-- A call of `publishEvent`, with what Kafka answers while it runs.
pub record Publication : Type 0 where
  pub now : ℕ
  pub event : Event
  pub connect : Outcome (Unit {0})
  pub send : Outcome (Unit {0})

abbrev pub published : Publication → Producer → Producer
published q p = (publish_event q.connect q.send q.now q.event p).1

pub publish_all : List Publication → Producer → Producer
publish_all [] p = p
publish_all (q ∷ qs) p = publish_all qs (published q p)

abbrev pub is_ok : Outcome (Unit {0}) → Bool
is_ok (ok done) = true
is_ok (threw err) = false

-- Whether there is a connection after a call, given whether there was one before.
abbrev pub after : Bool → Publication → Bool
after true q = true
after false q = is_ok q.connect

-- The messages that Kafka takes: none until a connection is made, and from then on those whose
-- sending it answers.
abbrev pub taken : Bool → List Publication → List Message
taken up [] = []
taken up (q ∷ qs) =
    let rest = taken (after up q) qs in
    if after up q then (if is_ok q.send then message_of q.now q.event ∷ rest else rest) else rest

-- What one call adds.
abbrev one : Bool → Publication → List Message
one up q = taken up (q ∷ [])

-- One connection at most has been made, and one if the flag is set.
abbrev pub IsSingle : Producer → Type 0
IsSingle p = p.connections ≡ (if p.is_connected then 1 else 0)

-- What a call does to the producer.
record Published (q : Publication) (p p' : Producer) : Type 0 where
  sent : p'.sent ≡ p.sent ++ one p.is_connected q
  flag : p'.is_connected ≡ after p.is_connected q
  single : IsSingle p'

module _ (now n : ℕ) (event : Event) (sent : List Message) where
  abbrev call : Outcome (Unit {0}) → Outcome (Unit {0}) → Publication
  call connect send = record { now = now; event = event; connect = connect; send = send }

  abbrev before : Bool → Producer
  before up = record { is_connected = up; connections = n; sent = sent }
