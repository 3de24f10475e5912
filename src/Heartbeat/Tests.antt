-- ===== src/Heartbeat/Tests.antt =====
-- The heartbeat of a worker (queue/heartbeat.js) with texts in memory.
use ai_distributed_job_platf.Prelude.{◌≡◌, true, false, List, [], ◌∷◌, none, arith}
use ai_distributed_job_platf.Heartbeat.{Beat, heartbeat_loop, is_worker_alive}
use ai_distributed_job_platf.Heartbeat.Memory.{Texts, memory_texts}
use ai_distributed_job_platf.Heartbeat.Beats.{is_worker_alive_lem}

abbrev no_texts : Texts
no_texts key = none

-- Of three beats of the interval, the last two are lost.
abbrev beats : List Beat
beats =
    record { time = 4000; is_answered = true }
    ∷ record { time = 7000; is_answered = false }
    ∷ record { time = 10000; is_answered = false }
    ∷ []

alive_at_13999 :
    is_worker_alive "w1" 13999
      (heartbeat_loop "w1" 10 (record { time = 1000; is_answered = true } ∷ beats) no_texts)
    ≡ true
alive_at_13999 =
    is_worker_alive_lem "w1" 10 1000 beats 13999 no_texts
      (omega arith, (omega arith, (omega arith, omega arith)))
