-- ===== src/Ai/Classes.antt =====
-- Which failures of a call are worth another try (ai/anthropicClient.js, `callClaude`, as ai/llm.js
-- and worker/worker.js read its errors).
use ai_distributed_job_platf.Prelude.{
  ℕ, ◌≤◌, ◌≡◌, ◌⊎◌, ◌↔◌, refl, String, true, false, ◌||◌, Option, some, Error, threw, leb, ◌==◌,
  str_eq, template, show, arith, [], ◌∷◌,
}
use ai_distributed_job_platf.Ai.{
  refused, ai_error, is_retryable_status, detail_text, call_claude, stops_chain,
}

-- With a key, a call that the API refuses with a status fails with an error that may be retried
-- exactly if the status is 408, 429 or at least 500; it lets the next model have its turn exactly
-- then, or if the status is 404.
call_claude-refused :
    (api_key model : String) (timeout_ms status : ℕ) (detail : Option String)
    → str_eq api_key "" ≡ false
    → (err : Error) × (call_claude (some api_key) model timeout_ms (refused status detail)
        ≡ threw err)
      × ((err.retryable ≡ some true) ↔ ((status ≡ 408) ⊎ ((status ≡ 429) ⊎ (500 ≤ status))))
      × ((stops_chain err ≡ false)
          ↔ ((status ≡ 404) ⊎ ((status ≡ 408) ⊎ ((status ≡ 429) ⊎ (500 ≤ status)))))
unfolding call_claude is_retryable_status stops_chain
call_claude-refused api_key model timeout_ms status detail configured = (
  ai_error (template ("Claude API " ∷ show status ∷ " (" ∷ model ∷ ")" ∷ detail_text detail ∷ []))
      (some status) (status == 408 || status == 429 || leb 500 status),
  rw configured refl,
  (λ h. ground arith, λ h. ground arith),
  (λ h. ground arith, λ h. ground arith),
)
