-- ===== src/Queue/Service.antt =====
-- What the job service does with a failed attempt (crates/application/src/jobs.rs): it asks the retry
-- policy, and applies the decision in a transaction of its own.
pub mod Retries
use pixiv_archive.Prelude.{
  ℕ, ◌+◌, min, Bool, true, false, Option, none, some, String, Outcome, ok, err, panicked,
}
use pixiv_archive.Job.ErrorClass
use pixiv_archive.Job.ErrorClass.{JobErrorClass}
use pixiv_archive.Job.Retry.{
  Durations, DbError, RetryDecision, RetryPolicy, RetryPolicyError, retry_after, block_account,
  do_not_retry, next_attempt,
}
use pixiv_archive.Queue.Store.{Documents, Units, Database, Tx, ◌>>=◌}
use pixiv_archive.Queue.Table.{max_i32}
use pixiv_archive.Queue.Transitions.{fail, retryable_failure_count}
use pixiv_archive.Queue.Accounts.{block_account_for_job}
use pixiv_archive.Queue.Claiming.{ClaimedJob, lease_of}

module _ ⦃J : Documents⦄ ⦃U : Units⦄ ⦃D : Durations⦄ where
  open D use {Duration}

  -- `next_attempt` returns no error; it may panic.
  unfoldable pub decide : Outcome RetryPolicyError RetryDecision → Tx RetryDecision
  decide (ok decision) db = ok (decision, db)
  decide (err e) db = panicked
  decide panicked db = panicked

  unfoldable pub failure_decision :
      RetryPolicy → ClaimedJob → JobErrorClass → Option Duration → Tx RetryDecision
  failure_decision policy claimed error_class wished = do
    count ← retryable_failure_count claimed.id
    decide (next_attempt policy error_class (min (count + 1) max_i32) wished)

  -- `plus` adds a delay to the time of the machine.
  unfoldable pub apply_failure :
      (ℕ → Duration → ℕ)
      → ℕ
      → ℕ
      → ClaimedJob
      → JobErrorClass
      → RetryDecision
      → Option String
      → Tx (Unit {0})
  apply_failure plus utc_now now claimed error_class (retry_after delay) message =
      fail now (lease_of claimed) (ErrorClass.as_str error_class) true (some (plus utc_now delay))
        message
  apply_failure plus utc_now now claimed error_class block_account message =
      block_account_for_job now (lease_of claimed) (ErrorClass.as_str error_class) message
  apply_failure plus utc_now now claimed error_class do_not_retry message =
      fail now (lease_of claimed) (ErrorClass.as_str error_class) false none message
