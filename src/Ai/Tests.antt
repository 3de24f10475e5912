-- ===== src/Ai/Tests.antt =====
-- Runs of ai/llm.js and ai/anthropicClient.js on answers that are given.
use ai_distributed_job_platf.Prelude.{
  String, true, some, Error, Outcome, ok, threw, str_eq, if◌then◌else◌,
}
use ai_distributed_job_platf.Ai.{Completion, ai_error}

abbrev reply : Completion
reply = record {
  text = "positive";
  model = "b";
  stop_reason = some "end_turn";
  input_tokens = 12;
  output_tokens = 1;
}

abbrev overloaded : Error
overloaded = ai_error "Claude API 529 (a)" (some 529) true

-- The model "b" answers, the others are overloaded.
abbrev models : String → Outcome Completion
models model = if str_eq model "b" then ok reply else threw overloaded
