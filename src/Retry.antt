-- ===== src/Retry.antt =====
-- src/domain/ingestion/retry_policy.py: which errors are retried, and when.
use reconciliation_ingestion.Prelude.{
  ℕ, ◌+◌, ◌-◌, ◌*◌, ◌^◌, ◌≤◌, min, String, Bool, true, false, ◌&&◌, List, Option, none, some, any,
  str_eq, ltb, if◌then◌else◌, ◌≡◌, refl, arith, inl, inr, Bool-cases, is_some, get_or,
}
use native.Mathlib.Nat.{mul-le-mul_left, pow-le-pow_right, le-mul_of_pos_right, one-le-pow}
use reconciliation_ingestion.Result.{Result, ok, err, value_error}

pub data RetryDisposition : Type 0 where
  retryable terminal : RetryDisposition

pub record RetryPolicy : Type 0 where
  pub max_attempts : ℕ
  pub initial_backoff_seconds : ℕ
  pub max_backoff_seconds : ℕ
  pub retryable_error_codes : List String

-- `__post_init__`; a natural number is not negative.
unfoldable pub validated : RetryPolicy → Result RetryPolicy
validated p =
    if ltb p.max_attempts 1
    then err (value_error "max_attempts must be at least 1")
    else if ltb p.max_backoff_seconds p.initial_backoff_seconds
    then err (value_error "max_backoff_seconds must be at least initial_backoff_seconds")
    else ok p

unfoldable pub classify : RetryPolicy → String → RetryDisposition
classify p code =
    if any (λ c. str_eq c code) p.retryable_error_codes
    then RetryDisposition.retryable
    else RetryDisposition.terminal

abbrev pub is_retryable : RetryDisposition → Bool
is_retryable RetryDisposition.retryable = true
is_retryable RetryDisposition.terminal = false

unfoldable pub can_retry : RetryPolicy → String → ℕ → Bool
unfolding classify
can_retry p code attempt_count = is_retryable (classify p code) && ltb attempt_count p.max_attempts

unfoldable backoff : RetryPolicy → ℕ → ℕ
backoff p attempt_count =
    min (p.initial_backoff_seconds * 2 ^ (attempt_count - 1)) p.max_backoff_seconds

unfoldable pub next_retry_at : RetryPolicy → String → ℕ → ℕ → Option ℕ
unfolding can_retry backoff
next_retry_at p code attempt_count now =
    if can_retry p code attempt_count then some (now + backoff p attempt_count) else none

backoff_mono : (p : RetryPolicy) (n m : ℕ) → n ≤ m → backoff p n ≤ backoff p m
unfolding backoff
backoff_mono p n m h =
    let grown =
      mul-le-mul_left p.initial_backoff_seconds
        (pow-le-pow_right {n = 2} (omega arith) {i = n - 1} {j = m - 1} (omega arith)) in
    omega (arith, grown)

backoff_above :
    (p : RetryPolicy) (n : ℕ)
    → p.initial_backoff_seconds ≤ p.max_backoff_seconds
    → p.initial_backoff_seconds ≤ backoff p n
unfolding backoff
backoff_above p n h =
    let grown =
      le-mul_of_pos_right {m = 2 ^ (n - 1)} p.initial_backoff_seconds
        (one-le-pow (n - 1) 2 (omega arith)) in
    omega (arith, grown)

validated-ordered :
    (p : RetryPolicy) → validated p ≡ ok p → p.initial_backoff_seconds ≤ p.max_backoff_seconds
unfolding validated
validated-ordered p h = ground (arith)

backoff_below : (p : RetryPolicy) (n : ℕ) → backoff p n ≤ p.max_backoff_seconds
unfolding backoff
backoff_below p n = omega arith

-- The schedule of a valid policy: an error is retried exactly while its code is a retryable one and attempts
-- are left; the delay is then never below the initial backoff nor above the greatest one, and a later
-- attempt never waits less than an earlier one.
pub retry_schedule :
    (p : RetryPolicy) (code : String) (n m now : ℕ)
    → validated p ≡ ok p
    → n ≤ m
    → (is_some (next_retry_at p code n now)
        ≡ (is_retryable (classify p code) && ltb n p.max_attempts))
      × (now + p.initial_backoff_seconds
          ≤ get_or (now + p.initial_backoff_seconds) (next_retry_at p code n now))
      × (get_or now (next_retry_at p code n now) ≤ now + p.max_backoff_seconds)
      × (get_or now (next_retry_at p code n now)
          ≤ get_or (now + p.max_backoff_seconds) (next_retry_at p code m now))
unfolding next_retry_at can_retry
retry_schedule p code n m now v h =
    let mono = backoff_mono p n m h in
    let above = backoff_above p n (validated-ordered p v) in
    let below = backoff_below p n in
    elim (Bool-cases (is_retryable (classify p code) && ltb n p.max_attempts)) [
      | inl e ↦ rw e (
        refl,
        omega (arith, above),
        omega (arith, below),
        elim (Bool-cases (is_retryable (classify p code) && ltb m p.max_attempts)) [
          | inl f ↦ rw f (omega (arith, mono))
          | inr f ↦ rw f (omega (arith, below))
        ],
      )
      | inr e ↦ rw e (
        refl,
        omega arith,
        omega arith,
        elim (Bool-cases (is_retryable (classify p code) && ltb m p.max_attempts)) [
          | inl f ↦ rw f (omega arith)
          | inr f ↦ rw f (omega arith)
        ],
      )
    ]
