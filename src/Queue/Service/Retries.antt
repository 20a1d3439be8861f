-- ===== src/Queue/Service/Retries.antt =====
-- How often a job is tried again (crates/application/src/jobs.rs).
use pixiv_archive.Prelude.{
  ℕ, ◌+◌, min, true, false, Option, none, some, String, Outcome, ok, err, panicked, ok-injective,
  ◌≡◌, refl, sym, ◌∙◌,
}
use pixiv_archive.Job.ErrorClass.{JobErrorClass}
use pixiv_archive.Job.State.{failed}
use pixiv_archive.Job.Retry.{
  Durations, RetryDecision, RetryPolicy, RetryPolicyError, retry_after, block_account, do_not_retry,
}
use pixiv_archive.Job.Retry.Laws.{IsUsable, IsDue, next_attempt-IsDue}
use pixiv_archive.Queue.Store.{Documents, Units, Database, Job}
use pixiv_archive.Queue.Transact.{succeeded, pure-eq-ok, gets-eq-ok, or_throw-eq-ok}
use pixiv_archive.Queue.Table.{max_i32, find_job}
use pixiv_archive.Queue.Transitions.{retryable_failure_count}
use pixiv_archive.Queue.Transitions.Ends.{fail-EndedLease}
use pixiv_archive.Queue.Accounts.Blocks.{IsBlockedJob, block_account_for_job-IsBlockedJob}
use pixiv_archive.Queue.Claiming.{ClaimedJob, lease_of}
use pixiv_archive.Queue.Service.{decide, failure_decision, apply_failure}

module _ ⦃J : Documents⦄ ⦃U : Units⦄ ⦃D : Durations⦄ where
  open D use {Duration}

  -- How the tables show a decision, made at a time of the machine.
  abbrev pub IsApplied : (ℕ → Duration → ℕ) → ℕ → RetryDecision → ℕ → Database → Type 0
  IsApplied plus utc_now (retry_after delay) id db =
      (job : Job) × (find_job id db.jobs ≡ some job)
      × (job.state ≡ failed)
      × (job.retryable ≡ some true)
      × (job.next_retry_at ≡ some (plus utc_now delay))
  IsApplied plus utc_now block_account id db = IsBlockedJob id db
  IsApplied plus utc_now do_not_retry id db =
      (job : Job) × (find_job id db.jobs ≡ some job)
      × (job.state ≡ failed)
      × (job.retryable ≡ some false)
      × (job.next_retry_at ≡ none)

  apply_failure-IsApplied :
      (plus : ℕ → Duration → ℕ) (utc_now now : ℕ) (claimed : ClaimedJob) (class : JobErrorClass)
      (decision : RetryDecision) (message : Option String) (a : Unit {0}) (db next : Database)
      → apply_failure plus utc_now now claimed class decision message db ≡ ok (a, next)
      → IsApplied plus utc_now decision claimed.id next
  unfolding apply_failure lease_of
  apply_failure-IsApplied plus utc_now now claimed class (retry_after delay) message a db next h =
      let e = fail-EndedLease now (lease_of claimed) _ true _ message a db next h in
      (_, e.after, refl, refl, refl)
  apply_failure-IsApplied plus utc_now now claimed class block_account message a db next h =
      block_account_for_job-IsBlockedJob now (lease_of claimed) _ message a db next h
  apply_failure-IsApplied plus utc_now now claimed class do_not_retry message a db next h =
      let e = fail-EndedLease now (lease_of claimed) _ false _ message a db next h in
      (_, e.after, refl, refl, refl)

  decide-eq-ok :
      (o : Outcome RetryPolicyError RetryDecision) (decision : RetryDecision) (db next : Database)
      → decide o db ≡ ok (decision, next)
      → o ≡ ok decision
  unfolding decide
  decide-eq-ok (ok d) decision db next h = cc
  decide-eq-ok (err e) decision db next h = cc
  decide-eq-ok panicked decision db next h = cc

  counted_job :
      (id count : ℕ) (db next : Database)
      → retryable_failure_count id db ≡ ok (count, next)
      → (job : Job) × (find_job id db.jobs ≡ some job) × (job.retryable_failure_count ≡ count)
  unfolding retryable_failure_count
  counted_job id count db next h =
      let (row, db1, got, h1) = succeeded _ _ h in
      let (row_is, same1) = gets-eq-ok _ got in
      let (job, db2, some_row, h2) = succeeded _ _ h1 in
      let (is, same2) = or_throw-eq-ok _ _ some_row in
      (job, row_is ∙ is, (pure-eq-ok job.retryable_failure_count count h2).0)

  -- With a usable retry policy, when the service decides on a failed attempt, in some tables, and the
  -- decision is applied successfully, in these or other tables: the decision is the one that the
  -- policy makes (`IsDue`) after one failure more than the job has counted, at most the largest
  -- `integer`; on a decision to try again the job has failed and its next attempt is due after the
  -- decided delay; on the decision not to, it has failed for good; and on the decision to block the
  -- account, the job waits for its account without a lease and without a time of a retry, and the
  -- account's credential is invalid or not configured.
  pub failure_follows_policy :
      (plus : ℕ → Duration → ℕ) (utc_now now : ℕ) (policy : RetryPolicy) (claimed : ClaimedJob)
      (class : JobErrorClass) (wished : Option Duration) (decision : RetryDecision)
      (message : Option String) (a : Unit {0}) (before read db next : Database)
      → IsUsable policy
      → failure_decision policy claimed class wished before ≡ ok (decision, read)
      → apply_failure plus utc_now now claimed class decision message db ≡ ok (a, next)
      → (counted : Job) × (find_job claimed.id before.jobs ≡ some counted)
        × IsDue policy class (min (counted.retryable_failure_count + 1) max_i32) wished decision
        × IsApplied plus utc_now decision claimed.id next
  unfolding failure_decision
  failure_follows_policy plus utc_now now policy claimed class wished decision message a before read
        db next fine decided applied =
      let (count, mid, counted, later) = succeeded _ _ decided in
      let (job, found, is) = counted_job claimed.id count before mid counted in
      let answer = decide-eq-ok _ decision mid read later in
      let (due, answered, is_due) =
        next_attempt-IsDue policy fine class (min (job.retryable_failure_count + 1) max_i32)
          wished in
      let same : due ≡ decision = ok-injective (sym answered ∙ (rw is answer)) in
      (
        job,
        found,
        rw same at is_due,
        apply_failure-IsApplied plus utc_now now claimed class decision message a db next applied,
      )
