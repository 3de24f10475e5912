-- ===== src/Worker/Backoff.antt =====
-- The delay before a retry (worker/worker.js, `computeBackoffMs`).
use native.Mathlib.Nat.{pow-le-pow_right}
use ai_distributed_job_platf.Prelude.{
  ℕ, zero, suc, ◌*◌, ◌^◌, ◌≤◌, ◌<◌, ◌≡◌, ◌⊎◌, inl, inr, refl, arith,
}
use ai_distributed_job_platf.Worker.{delay_ms, compute_backoff_ms}

delay_ms_mono : (a b : ℕ) → a ≤ b → delay_ms a ≤ delay_ms b
unfolding delay_ms
delay_ms_mono zero zero h = omega arith
delay_ms_mono zero (suc b) h =
    omega (arith, pow-le-pow_right {n = 2} (omega arith) {i = 0} {j = b} (omega arith))
delay_ms_mono (suc a) zero h = absurd (omega arith)
delay_ms_mono (suc a) (suc b) h =
    omega (arith, pow-le-pow_right {n = 2} (omega arith) {i = a} {j = b} (omega arith))

-- A later attempt never waits for a shorter time than an earlier one.
compute_backoff_ms_mono : (a b : ℕ) → a ≤ b → compute_backoff_ms a ≤ compute_backoff_ms b
unfolding compute_backoff_ms
compute_backoff_ms_mono a b h = omega (arith, delay_ms_mono a b h)

-- After attempt n + 1 the delay is 2000 * 2^n milliseconds, twice that of the attempt before, as
-- long as that is below a minute; from the sixth attempt on it is a minute.
pub compute_backoff_ms_lem :
    (n : ℕ)
    → ((n < 5) × (compute_backoff_ms (suc n) ≡ 2000 * 2 ^ n))
      ⊎ ((5 ≤ n) × (compute_backoff_ms (suc n) ≡ 60000))
unfolding compute_backoff_ms
compute_backoff_ms_lem zero = inl (omega arith, refl)
compute_backoff_ms_lem (suc zero) = inl (omega arith, refl)
compute_backoff_ms_lem (suc (suc zero)) = inl (omega arith, refl)
compute_backoff_ms_lem (suc (suc (suc zero))) = inl (omega arith, refl)
compute_backoff_ms_lem (suc (suc (suc (suc zero)))) = inl (omega arith, refl)
compute_backoff_ms_lem (suc (suc (suc (suc (suc n))))) = inr (
  omega arith,
  omega (
    arith,
    pow-le-pow_right {n = 2} (omega arith) {i = 5} {j = suc (suc (suc (suc (suc n))))}
        (omega arith),
  ),
)

-- Every delay is between one second and a minute, and at least two seconds once an attempt was
-- made.
compute_backoff_ms_bounds :
    (attempts : ℕ)
    → (1000 ≤ compute_backoff_ms attempts)
      × (compute_backoff_ms attempts ≤ 60000)
      × (1 ≤ attempts → 2000 ≤ compute_backoff_ms attempts)
unfolding compute_backoff_ms
compute_backoff_ms_bounds attempts = (
  omega (arith, delay_ms_mono 0 attempts),
  omega arith,
  λ h. omega (arith, delay_ms_mono 1 attempts h),
)
