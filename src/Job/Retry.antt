-- ===== src/Job/Retry.antt =====
-- What follows a failed attempt at a job (crates/application/src/jobs.rs).
pub mod Laws
use pixiv_archive.Prelude.{
  ℕ, ◌-◌, min, List, [], ◌∷◌, Bool, true, false, ◌||◌, Option, none, some, String, if◌then◌else◌,
  is_empty, any, length, get_elem?, ltb, Outcome, ok, err, expect, ◌>>=◌, map,
}
use pixiv_archive.Job.ErrorClass.{
  JobErrorClass, network, server, rate_limit, credential_invalid, permanent,
}

-- The durations of the crate `time`: `duration <= Duration::ZERO`, `duration >= Duration::ZERO` and
-- `Duration::seconds`.
pub record Durations : Type 1 where
  pub Duration : Type 0
  pub at_most_zero : Duration → Bool
  pub at_least_zero : Duration → Bool
  pub seconds : ℕ → Duration

-- The errors of the database, without their texts and durations.
pub data DbError : Type 0 where
  connection migration revision_conflict lease_conflict query rate_limited constraint not_found
        invalid_value :
      DbError

unfoldable pub database_error_class : DbError → JobErrorClass
database_error_class DbError.connection = server
database_error_class DbError.migration = server
database_error_class DbError.revision_conflict = server
database_error_class DbError.lease_conflict = server
database_error_class DbError.query = server
database_error_class DbError.rate_limited = rate_limit
database_error_class DbError.constraint = permanent
database_error_class DbError.not_found = permanent
database_error_class DbError.invalid_value = permanent

module _ ⦃D : Durations⦄ where
  open D use {Duration, at_most_zero, at_least_zero, seconds}

  pub data RetryDecision : Type 0 where
    retry_after : Duration → RetryDecision
    block_account do_not_retry : RetryDecision

  pub record RetryPolicy : Type 0 where
    pub network_backoff : List Duration

  pub data RetryPolicyError : Type 0 where
    invalid_backoff : RetryPolicyError

  -- `RetryPolicy::default`.
  unfoldable pub default_policy : RetryPolicy
  default_policy = record { network_backoff = map seconds (60 ∷ 300 ∷ 1200 ∷ 3600 ∷ []) }

  unfoldable pub new : List Duration → Outcome RetryPolicyError RetryPolicy
  new network_backoff =
      if is_empty network_backoff || any at_most_zero network_backoff
      then err invalid_backoff
      else ok (record { network_backoff = network_backoff })

  -- The code indexes a vector, which panics out of its range, and so does `len() - 1` of an empty
  -- one.
  unfoldable pub backoff_for_attempt : RetryPolicy → ℕ → Outcome RetryPolicyError Duration
  backoff_for_attempt policy attempt =
      if is_empty policy.network_backoff
      then Outcome.panicked
      else expect
          (get_elem? policy.network_backoff (min (attempt - 1) (length policy.network_backoff - 1)))

  -- `retry_after.filter(|duration| *duration >= Duration::ZERO)`.
  abbrev usable : Option Duration → Option Duration
  usable none = none
  usable (some duration) = if at_least_zero duration then some duration else none

  abbrev back_off : RetryPolicy → ℕ → Outcome RetryPolicyError RetryDecision
  back_off policy attempt = do
    duration ← backoff_for_attempt policy attempt
    ok (retry_after duration)

  unfoldable pub next_attempt :
      RetryPolicy → JobErrorClass → ℕ → Option Duration → Outcome RetryPolicyError RetryDecision
  next_attempt policy credential_invalid attempt wished = ok block_account
  next_attempt policy permanent attempt wished = ok do_not_retry
  next_attempt policy rate_limit attempt wished =
      if ltb (length policy.network_backoff) attempt
      then ok do_not_retry
      else elim (usable wished) [
        | some duration ↦ ok (retry_after duration)
        | none ↦ back_off policy attempt
      ]
  next_attempt policy network attempt wished =
      if ltb (length policy.network_backoff) attempt
      then ok do_not_retry
      else back_off policy attempt
  next_attempt policy server attempt wished =
      if ltb (length policy.network_backoff) attempt
      then ok do_not_retry
      else back_off policy attempt
