-- ===== src/Queue/Accounts.antt =====
-- What the state of a Pixiv account does to its jobs (crates/db/src/jobs/account_wait.rs).
pub mod Waits
pub mod Keeps
pub mod Blocks
use pixiv_archive.Prelude.{
  ℕ, ◌+◌, List, [], ◌∷◌, Bool, true, false, not, ◌&&◌, ◌||◌, Option, none, some, String,
  if◌then◌else◌, is_some, ltb, ◌==◌, Outcome, ok, err, map,
}
use pixiv_archive.Job.State
use pixiv_archive.Job.State.{JobState, queued, running, waiting_account, waiting_storage, failed}
use pixiv_archive.Job.Retry.{DbError}
use pixiv_archive.Subscription.Account
use pixiv_archive.Subscription.Account.{PixivAccountState}
use pixiv_archive.Queue.Store.{
  Documents, Units, Database, Tx, Job, JobLease, EventPayload, job_waiting_account,
  job_released_from_account_wait, pixiv_account_changed, ◌>>=◌, ◌>>◌, pure, throw, gets, or_throw,
  throw_if, append_event,
}
use pixiv_archive.Queue.Store
use pixiv_archive.Queue.Insertion.{find_account}
use pixiv_archive.Queue.Table.{
  same_state, is_number, is_later, is_true, max_i64, update_job, update_jobs,
}
use pixiv_archive.Queue.Attempts.{Ending, close_running_attempt}
use pixiv_archive.Queue.Transitions.{holds_lease, append_events, moved}

unfoldable pub replace_account : Store.Account → List Store.Account → List Store.Account
replace_account account [] = []
replace_account account (other ∷ rest) =
    if other.id == account.id then account ∷ rest else other ∷ replace_account account rest

abbrev is_unconfigured : PixivAccountState → Bool
is_unconfigured Account.unconfigured = true
is_unconfigured _ = false

module _ ⦃J : Documents⦄ where
  -- The jobs of the account that a worker could still take.
  unfoldable pub can_wait : ℕ → Job → Bool
  can_wait account_id job =
      is_number job.pixiv_account_id account_id
      && (same_state job.state queued
          || same_state job.state waiting_storage
          || (same_state job.state failed && is_true job.retryable))

  abbrev pub in_account_wait : ℕ → Option String → Job → Job
  in_account_wait now error_class job = record job {
    state = waiting_account;
    error_class = error_class;
    retryable = none;
    next_retry_at = none;
    updated_at = now;
    resource_revision = job.resource_revision + 1;
  }

  abbrev pub blocked : ℕ → String → Job → Job
  blocked now error_class job = record job {
    state = waiting_account;
    lease_owner = none;
    lease_expires_at = none;
    error_class = some error_class;
    retryable = none;
    next_retry_at = none;
    updated_at = now;
    resource_revision = job.resource_revision + 1;
  }

  abbrev pub without_error_class : Job → Job
  without_error_class job = record job { error_class = none }

module _ ⦃J : Documents⦄ ⦃U : Units⦄ where
  unfoldable pub write_account : Store.Account → Tx (Unit {0})
  write_account account db =
      if ltb max_i64 account.revision
      then err DbError.query
      else ok (tt, record db { accounts = replace_account account db.accounts })

  -- `UPDATE pixiv_account`, and the event for the changed row.
  unfoldable pub invalidate_account : ℕ → Option Store.Account → Tx Bool
  invalidate_account now none = throw DbError.not_found
  invalidate_account now (some account) = if is_unconfigured account.state then pure false else (do
    write_account (record account {
      state = Account.credential_invalid;
      updated_at = now;
      revision = account.revision + 1;
    })
    append_event account.id (pixiv_account_changed (account.revision + 1))
    pure true)

  unfoldable pub set_account_credential_invalid : ℕ → ℕ → Tx Bool
  unfolding invalidate_account
  set_account_credential_invalid now account_id = do
    account ← gets (λ db. find_account account_id db.accounts)
    invalidate_account now account

  unfoldable pub move_jobs_to_account_wait : ℕ → ℕ → Option String → Tx (List Job)
  move_jobs_to_account_wait now account_id error_class =
      update_jobs (can_wait account_id) (in_account_wait now error_class)

  -- `account_invalidated.then_some(error_class)`.
  abbrev pub then_some : Bool → String → Option String
  then_some true error_class = some error_class
  then_some false error_class = none

  unfoldable pub block_account : ℕ → ℕ → String → Tx (Unit {0})
  block_account now account_id error_class = do
    account_invalidated ← set_account_credential_invalid now account_id
    waiting_jobs ←
        move_jobs_to_account_wait now account_id (then_some account_invalidated error_class)
    append_events job_waiting_account waiting_jobs

  -- `UPDATE job SET error_class = NULL WHERE id = $1`.
  unfoldable pub clear_error_class : Bool → ℕ → Tx (Unit {0})
  clear_error_class true id = pure tt
  clear_error_class false id = do cleared ← update_job id (λ job. true) without_error_class; pure tt

  -- The rest of the transaction, with the row's new revision and its account.
  unfoldable pub block_account_of : ℕ → Job → ℕ → String → Tx (Unit {0})
  block_account_of now row account_id error_class = do
    account_invalidated ← set_account_credential_invalid now account_id
    clear_error_class account_invalidated row.id
    waiting_jobs ←
        move_jobs_to_account_wait now account_id (then_some account_invalidated error_class)
    append_events job_waiting_account (row ∷ waiting_jobs)

  unfoldable pub block_account_for_job : ℕ → JobLease → String → Option String → Tx (Unit {0})
  block_account_for_job now lease error_class message = do
    updated ←
        update_job lease.job_id (λ job. holds_lease now lease job && is_some job.pixiv_account_id)
          (blocked now error_class)
    row ← or_throw DbError.lease_conflict updated
    account_id ← or_throw DbError.lease_conflict row.pixiv_account_id
    close_running_attempt now lease.job_id (record {
      state = failed;
      error_class = some error_class;
      retryable = none;
      message = message;
    })
    block_account_of now row account_id error_class

  -- The jobs that `resume_account_in_tx` releases.
  unfoldable pub release_account_jobs : ℕ → ℕ → Tx (Unit {0})
  release_account_jobs now account_id = do
    released_jobs ←
        update_jobs
          (λ job. is_number job.pixiv_account_id account_id && same_state job.state waiting_account)
          (moved now queued)
    append_events job_released_from_account_wait released_jobs
