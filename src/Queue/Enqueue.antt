-- ===== src/Queue/Enqueue.antt =====
-- How jobs come into the queue (crates/db/src/jobs/enqueue.rs). The identifier of a new job is an
-- argument.
pub mod Inserts
pub mod Once
use pixiv_archive.Prelude.{
  ℕ, List, [], ◌∷◌, ◌++◌, Bool, true, false, not, ◌&&◌, ◌||◌, Option, none, some, String,
  if◌then◌else◌, is_some, ltb, ◌==◌, Outcome, ok, err,
}
use pixiv_archive.Job.Priority.{JobPriority}
use pixiv_archive.Job.State
use pixiv_archive.Job.State.{JobState, queued, running, waiting_account, waiting_storage, failed}
use pixiv_archive.Job.Kind
use pixiv_archive.Job.Kind.{JobKind, known_kind}
use pixiv_archive.Job.Retry.{DbError}
use pixiv_archive.Subscription.Account
use pixiv_archive.Subscription.Account.{PixivAccountState}
use pixiv_archive.Queue.Store
use pixiv_archive.Queue.Store.{
  Documents, Units, NewJob, Database, Tx, Job, JobLease, EventPayload, job_queued,
  job_waiting_account, ◌>>=◌, ◌>>◌, pure, gets, or_throw, throw_if, append_event,
}
use pixiv_archive.Queue.Table.{same_state, is_text, is_true, find_job, row_error}
use pixiv_archive.Queue.Transitions.{lock_active_lease_in_tx}
use pixiv_archive.Queue.Insertion.{enqueue_in_tx}

module _ ⦃J : Documents⦄ where
  open J use {Value, text_field, object}

  -- `NewJob::new` takes the time of the machine.
  unfoldable pub new_job : ℕ → JobPriority → String → Value → NewJob
  new_job utc_now priority kind payload = record {
    priority = priority;
    kind = kind;
    payload = payload;
    pixiv_account_id = none;
    available_at = utc_now;
  }

  unfoldable pub for_kind : ℕ → JobPriority → JobKind → Value → NewJob
  unfolding new_job
  for_kind utc_now priority kind payload = new_job utc_now priority (Kind.as_str kind) payload

unfoldable pub is_download : JobKind → Bool
is_download Kind.download_media = true
is_download _ = false

module _ ⦃J : Documents⦄ ⦃U : Units⦄ where
  open J use {Value, text_field, object}

  -- The rows that `enqueue_download_if_absent` looks for.
  unfoldable pub is_pending_download : String → Job → Bool
  is_pending_download pixiv_work_id job =
      is_download job.kind
      && (is_text (text_field job.payload "pixiv_work_id") pixiv_work_id
          && (same_state job.state queued
              || same_state job.state running
              || same_state job.state waiting_account
              || same_state job.state waiting_storage
              || (same_state job.state failed && is_true job.retryable)))

  -- `ORDER BY created_at LIMIT 1`.
  unfoldable pub oldest_download : String → List Job → Option Job
  oldest_download pixiv_work_id [] = none
  oldest_download pixiv_work_id (job ∷ rest) =
      let later = oldest_download pixiv_work_id rest in
      if is_pending_download pixiv_work_id job
      then elim later [
        | none ↦ some job
        | some other ↦ if ltb other.created_at job.created_at then some other else some job
      ]
      else later

  abbrev pub lock_if_some : ℕ → Option JobLease → Tx (Unit {0})
  lock_if_some now none = pure tt
  lock_if_some now (some lease) = lock_active_lease_in_tx now lease

  -- `pixiv_work_id.to_string()` and the text of `work_id` are arguments.
  unfoldable pub enqueue_unless : ℕ → ℕ → ℕ → NewJob → Option Job → Tx ℕ
  enqueue_unless now id account_id job (some existing) = pure existing.id
  enqueue_unless now id account_id job none =
      enqueue_in_tx now id (record job { pixiv_account_id = some account_id })

  unfoldable pub enqueue_download_if_absent_with_lease :
      ℕ → ℕ → ℕ → Option JobLease → ℕ → String → String → JobPriority → Tx ℕ
  enqueue_download_if_absent_with_lease now utc_now id lease account_id work_id pixiv_work_id
        priority =
      do
        lock_if_some now lease
        existing ← gets (λ db. oldest_download pixiv_work_id db.jobs)
        enqueue_unless now id account_id
            (for_kind utc_now priority Kind.download_media
              (object (("pixiv_work_id", pixiv_work_id) ∷ ("work_id", work_id) ∷ [])))
            existing
