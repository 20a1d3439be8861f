-- ===== src/Queue/Requests.antt =====
-- The requests that workers, the administrator and the services make of the queue, one transaction
-- each, in the order in which they commit.
pub mod Invariant
pub mod Checked
pub mod Checks
pub mod Lawful
use pixiv_archive.Prelude.{ℕ, List, [], ◌∷◌, Bool, Option, String, Outcome, ok, err, panicked}
use pixiv_archive.Prelude.Int.{ℤ}
use pixiv_archive.Job.Priority.{JobPriority}
use pixiv_archive.Job.Selection.{JobQuotaSelection}
use pixiv_archive.Queue.Store.{Documents, Units, NewJob, Database, JobLease, transact}
use pixiv_archive.Queue.Transitions.{
  JobCompletion, complete_in_tx, wait_for_storage, set_storage_write_allowed, fail,
  cancel_requested, retry_requested,
}
use pixiv_archive.Queue.Claiming.{claim_in_tx, heartbeat}
use pixiv_archive.Queue.Accounts.{block_account, block_account_for_job, release_account_jobs}
use pixiv_archive.Queue.Insertion.{enqueue_in_tx}
use pixiv_archive.Queue.Enqueue.{enqueue_download_if_absent_with_lease}

module _ ⦃J : Documents⦄ ⦃U : Units⦄ where
  -- Each with the time of its transaction first.
  pub data Request : Type 0 where
    to_enqueue : ℕ → ℕ → NewJob → Request
    to_enqueue_download : ℕ → ℕ → ℕ → Option JobLease → ℕ → String → String → JobPriority → Request
    to_claim : ℕ → (ℕ → Bool) → ℕ → JobQuotaSelection → ℤ → Request
    to_heartbeat : ℕ → ℕ → ℕ → ℕ → ℤ → Request
    to_complete : ℕ → JobLease → JobCompletion → Request
    to_wait_for_storage : ℕ → JobLease → Request
    to_fail : ℕ → JobLease → String → Bool → Option ℕ → Option String → Request
    to_block_for_job : ℕ → JobLease → String → Option String → Request
    to_block_account : ℕ → ℕ → String → Request
    to_release_account : ℕ → ℕ → Request
    to_allow_storage : ℕ → Bool → Request
    to_cancel to_retry : ℕ → ℕ → ℕ → Request

  -- The tables after the request, whether it succeeds or not.
  unfoldable pub perform : Request → Database → Database
  perform (to_enqueue now id job) db = (transact (enqueue_in_tx now id job) db).1
  perform (to_enqueue_download now utc_now id lease account_id work_id pixiv_work_id priority) db =
      (transact
        (enqueue_download_if_absent_with_lease now utc_now id lease account_id work_id pixiv_work_id
          priority)
        db).1
  perform (to_claim now locked owner selection duration) db =
      (transact (claim_in_tx locked now owner selection duration) db).1
  perform (to_heartbeat now id revision owner extend_by) db =
      (transact (heartbeat now id revision owner extend_by) db).1
  perform (to_complete now lease completion) db =
      (transact (complete_in_tx now lease completion) db).1
  perform (to_wait_for_storage now lease) db = (transact (wait_for_storage now lease) db).1
  perform (to_fail now lease error_class retryable next_retry_at message) db =
      (transact (fail now lease error_class retryable next_retry_at message) db).1
  perform (to_block_for_job now lease error_class message) db =
      (transact (block_account_for_job now lease error_class message) db).1
  perform (to_block_account now account_id error_class) db =
      (transact (block_account now account_id error_class) db).1
  perform (to_release_account now account_id) db =
      (transact (release_account_jobs now account_id) db).1
  perform (to_allow_storage now allowed) db =
      (transact (set_storage_write_allowed now allowed) db).1
  perform (to_cancel now id revision) db = (transact (cancel_requested now id revision) db).1
  perform (to_retry now id revision) db = (transact (retry_requested now id revision) db).1

  unfoldable pub run : List Request → Database → Database
  run [] db = db
  run (request ∷ rest) db = run rest (perform request db)
