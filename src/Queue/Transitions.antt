-- ===== src/Queue/Transitions.antt =====
-- The transitions of a job that is running or waits (crates/db/src/jobs/transitions.rs). Each takes
-- the time of its transaction.
pub mod Ends
pub mod Cancel
pub mod Requests
pub mod Moves
use pixiv_archive.Prelude.{
  ℕ, ◌+◌, List, [], ◌∷◌, Bool, true, false, not, ◌&&◌, ◌||◌, Option, none, some, String,
  if◌then◌else◌, is_some, ltb, ◌==◌, str_eq, Outcome, ok, err, panicked, length,
}
use Prim.Native.Nat.{max}
use pixiv_archive.Job.Priority
use pixiv_archive.Job.Priority.{JobPriority}
use pixiv_archive.Job.State
use pixiv_archive.Job.State.{
  JobState, queued, running, waiting_account, waiting_storage, completed, failed, cancelled,
}
use pixiv_archive.Job.Kind
use pixiv_archive.Job.Kind.{JobKind}
use pixiv_archive.Job.Retry.{DbError}
use pixiv_archive.Queue.Store.{
  Documents, Units, Database, Tx, Job, JobLease, ArtifactIntent, TrashEntry, EventPayload,
  job_completed, job_waiting_storage, job_released_from_storage_wait, job_failed, job_cancelled,
  job_queued, ◌>>=◌, ◌>>◌, pure, throw, gets, or_throw, throw_if, append_event,
}
use pixiv_archive.Queue.Table.{
  same_state, is_number, is_later, is_text, writes_media, is_purge, find_job, update_job,
  update_jobs,
}
use pixiv_archive.Queue.Insertion.{on_units}
use pixiv_archive.Queue.Attempts.{Ending, close_running_attempt}
use pixiv_archive.Queue.Linked.{
  ImportJobCompletion, complete_linked_import_run, fail_linked_import_run, cancel_linked_import_run,
  reset_linked_import_run_for_retry,
}

module _ ⦃J : Documents⦄ where
  open J use {Value, text_field}

  pub record JobRecord : Type 0 where
    pub id : ℕ
    pub priority : JobPriority
    pub kind : String
    pub payload : Value
    pub state : JobState
    pub attempts : ℕ
    pub available_at : ℕ
    pub error_class : Option String
    pub retryable : Option Bool
    pub next_retry_at : Option ℕ
    pub resource_revision : ℕ
    pub created_at : ℕ
    pub updated_at : ℕ

  abbrev with_words : Job → Option JobPriority → Option JobState → Outcome DbError JobRecord
  with_words job none state = err DbError.invalid_value
  with_words job (some priority) none = err DbError.invalid_value
  with_words job (some priority) (some state) = ok (record {
    id = job.id;
    priority = priority;
    kind = Kind.as_str job.kind;
    payload = job.payload;
    state = state;
    attempts = job.attempts;
    available_at = job.available_at;
    error_class = job.error_class;
    retryable = job.retryable;
    next_retry_at = job.next_retry_at;
    resource_revision = job.resource_revision;
    created_at = job.created_at;
    updated_at = job.updated_at;
  })

  -- The columns priority_class and state hold the words of the row's priority and state.
  unfoldable pub job_from_row : Job → Outcome DbError JobRecord
  job_from_row job =
      with_words job (Priority.from_db_value (Priority.as_str job.priority))
        (State.from_db_value (State.as_str job.state))

  -- The row is running under the lease, which has not expired.
  unfoldable pub holds_lease : ℕ → JobLease → Job → Bool
  holds_lease now lease job =
      job.resource_revision == lease.resource_revision
      && (is_number job.lease_owner lease.lease_owner
          && (is_later job.lease_expires_at now && same_state job.state running))

  -- `payload ->> 'work_id'` of a purge, and of no other job.
  unfoldable pub purged_work : Option Job → Option String
  purged_work none = none
  purged_work (some job) = if is_purge job.kind then text_field job.payload "work_id" else none

unfoldable pub is_irreversible : Option String → List TrashEntry → Bool
is_irreversible work [] = false
is_irreversible work (entry ∷ rest) =
    (ltb 0 entry.purge_attempts && is_text work entry.work_id) || is_irreversible work rest

abbrev or_now : Option ℕ → ℕ → ℕ
or_now none now = now
or_now (some time) now = time

unfoldable pub delay_cleanup : ℕ → ℕ → List ArtifactIntent → List ArtifactIntent
delay_cleanup id time [] = []
delay_cleanup id time (intent ∷ rest) =
    (if intent.job_id == id
      then record intent { cleanup_after = max intent.cleanup_after time }
      else intent)
    ∷ delay_cleanup id time rest

abbrev pub can_cancel : JobState → Bool
can_cancel queued = true
can_cancel running = true
can_cancel waiting_account = true
can_cancel waiting_storage = true
can_cancel failed = true
can_cancel _ = false

pub record TerminalStateUpdate : Type 0 where
  pub lease : JobLease
  pub state : JobState
  pub error_class : Option String
  pub retryable : Option Bool
  pub next_retry_at : Option ℕ
  pub increment_retryable_failure_count : Bool
  pub message : Option String

module _ ⦃J : Documents⦄ ⦃U : Units⦄ where
  open U use {
    Finished, complete_linked_unit, fail_linked_unit, cancel_linked_unit, reset_linked_unit,
  }

  unfoldable pub lock_active_lease_in_tx : ℕ → JobLease → Tx (Unit {0})
  lock_active_lease_in_tx now lease = do
    row ← gets (λ db. find_job lease.job_id db.jobs)
    job ← or_throw DbError.lease_conflict row
    throw_if (not (holds_lease now lease job)) DbError.lease_conflict

  -- The `SET` list of the update, which takes the lease away.
  abbrev pub in_terminal_state : ℕ → TerminalStateUpdate → Job → Job
  in_terminal_state now update job = record job {
    state = update.state;
    lease_owner = none;
    lease_expires_at = none;
    error_class = update.error_class;
    retryable = update.retryable;
    next_retry_at = update.next_retry_at;
    retryable_failure_count =
        job.retryable_failure_count + (if update.increment_retryable_failure_count then 1 else 0);
    updated_at = now;
    resource_revision = job.resource_revision + 1;
  }

  unfoldable pub set_terminal_state : ℕ → TerminalStateUpdate → Tx ℕ
  set_terminal_state now update = do
    row ←
        update_job update.lease.job_id (holds_lease now update.lease) (in_terminal_state now update)
    job ← or_throw DbError.lease_conflict row
    close_running_attempt now update.lease.job_id (record {
      state = update.state;
      error_class = update.error_class;
      retryable = update.retryable;
      message = update.message;
    })
    pure job.resource_revision

  pub data JobCompletion : Type 0 where
    task_only : JobCompletion
    import : ImportJobCompletion → JobCompletion
    subscription : Finished → JobCompletion

  unfoldable pub complete_linked : ℕ → ℕ → JobCompletion → Tx (Unit {0})
  complete_linked now id task_only = pure tt
  complete_linked now id (import completion) = complete_linked_import_run now id completion
  complete_linked now id (subscription completion) =
      on_units now id (λ linked priority. complete_linked_unit linked priority completion)

  -- No error, and no further attempt.
  abbrev pub without_error : JobLease → JobState → TerminalStateUpdate
  without_error lease state = record {
    lease = lease;
    state = state;
    error_class = none;
    retryable = none;
    next_retry_at = none;
    increment_retryable_failure_count = false;
    message = none;
  }

  unfoldable pub complete_in_tx : ℕ → JobLease → JobCompletion → Tx (Unit {0})
  complete_in_tx now lease completion = do
    revision ← set_terminal_state now (without_error lease completed)
    complete_linked now lease.job_id completion
    append_event lease.job_id (job_completed revision)

  unfoldable pub wait_for_storage : ℕ → JobLease → Tx (Unit {0})
  wait_for_storage now lease = do
    revision ← set_terminal_state now (without_error lease waiting_storage)
    append_event lease.job_id (job_waiting_storage revision)

  -- The loop that appends an event for each changed row.
  unfoldable pub append_events : (ℕ → EventPayload) → List Job → Tx (Unit {0})
  append_events payload [] = pure tt
  append_events payload (job ∷ rest) = do
    append_event job.id (payload job.resource_revision)
    append_events payload rest

  -- The `SET` list that moves a row to a state without a lease and without an error.
  abbrev pub moved : ℕ → JobState → Job → Job
  moved now state job = record job {
    state = state;
    error_class = none;
    retryable = none;
    next_retry_at = none;
    updated_at = now;
    resource_revision = job.resource_revision + 1;
  }

  unfoldable pub set_storage_write_allowed : ℕ → Bool → Tx ℕ
  set_storage_write_allowed now true = do
    rows ← update_jobs (λ job. same_state job.state waiting_storage) (moved now queued)
    append_events job_released_from_storage_wait rows
    pure (length rows)
  set_storage_write_allowed now false = do
    rows ←
        update_jobs (λ job. writes_media job.kind && same_state job.state queued)
          (moved now waiting_storage)
    append_events job_waiting_storage rows
    pure (length rows)

  -- What a failure that is not to be tried again does to the import run and the unit.
  unfoldable pub fail_linked : ℕ → ℕ → String → Option String → Tx (Unit {0})
  fail_linked now id error_class message = do
    fail_linked_import_run now id error_class message
    on_units now id (λ linked priority. fail_linked_unit linked priority error_class message)

  abbrev pub in_failure : JobLease → String → Bool → Option ℕ → Option String → TerminalStateUpdate
  in_failure lease error_class retryable next_retry_at message = record {
    lease = lease;
    state = failed;
    error_class = some error_class;
    retryable = some retryable;
    next_retry_at = next_retry_at;
    increment_retryable_failure_count = retryable && not (str_eq error_class "credential_invalid");
    message = message;
  }

  unfoldable pub fail : ℕ → JobLease → String → Bool → Option ℕ → Option String → Tx (Unit {0})
  unfolding fail_linked
  fail now lease error_class retryable next_retry_at message = do
    throw_if (if retryable then not (is_some next_retry_at) else is_some next_retry_at)
        DbError.invalid_value
    revision ← set_terminal_state now (in_failure lease error_class retryable next_retry_at message)
    if retryable then pure tt else fail_linked now lease.job_id error_class message
    append_event lease.job_id (job_failed revision)

  abbrev pub in_cancelled_state : ℕ → Job → Job
  in_cancelled_state now job = record job {
    state = cancelled;
    lease_owner = none;
    lease_expires_at = none;
    error_class = none;
    retryable = none;
    next_retry_at = none;
    updated_at = now;
    resource_revision = job.resource_revision + 1;
  }

  unfoldable pub update_intents : ℕ → ℕ → Tx (Unit {0})
  update_intents id time db = ok (tt, record db { intents = delay_cleanup id time db.intents })

  abbrev pub of_row : Outcome DbError JobRecord → Tx JobRecord
  of_row (ok job) = pure job
  of_row (err e) = throw e
  of_row panicked = λ db. Outcome.panicked

  unfoldable pub close_if_running : ℕ → ℕ → JobState → Tx (Unit {0})
  close_if_running now id state =
      if same_state state running
      then close_running_attempt now id
          (record { state = cancelled; error_class = none; retryable = none; message = none })
      else pure tt

  -- The row, if it can be cancelled.
  unfoldable pub check_cancel : ℕ → ℕ → Tx Job
  check_cancel id expected_revision = do
    found ← gets (λ db. find_job id db.jobs)
    current ← or_throw DbError.not_found found
    throw_if
        (not (current.resource_revision == expected_revision) || not (can_cancel current.state))
        DbError.revision_conflict
    irreversible ← gets (λ db. is_irreversible (purged_work (find_job id db.jobs)) db.trash)
    throw_if irreversible DbError.revision_conflict
    pure current

  unfoldable pub cancel_requested : ℕ → ℕ → ℕ → Tx JobRecord
  cancel_requested now id expected_revision = do
    current ← check_cancel id expected_revision
    update_intents id (or_now current.lease_expires_at now)
    updated ← update_job id (λ job. true) (in_cancelled_state now)
    row ← or_throw DbError.not_found updated
    close_if_running now id current.state
    cancel_linked_import_run now id
    on_units now id cancel_linked_unit
    answer ← of_row (job_from_row row)
    append_event id (job_cancelled answer.resource_revision)
    pure answer

  abbrev pub in_queued_state : ℕ → Job → Job
  in_queued_state now job = record job {
    state = queued;
    available_at = now;
    lease_owner = none;
    lease_expires_at = none;
    error_class = none;
    retryable = none;
    next_retry_at = none;
    updated_at = now;
    resource_revision = job.resource_revision + 1;
  }

  unfoldable pub retry_requested : ℕ → ℕ → ℕ → Tx JobRecord
  retry_requested now id expected_revision = do
    updated ←
        update_job id
          (λ job. job.resource_revision == expected_revision && same_state job.state failed)
          (in_queued_state now)
    row ← or_throw DbError.revision_conflict updated
    answer ← of_row (job_from_row row)
    reset_linked_import_run_for_retry id
    on_units now id reset_linked_unit
    append_event id (job_queued answer.resource_revision)
    pure answer

  unfoldable pub retryable_failure_count : ℕ → Tx ℕ
  retryable_failure_count id = do
    row ← gets (λ db. find_job id db.jobs)
    job ← or_throw DbError.not_found row
    pure job.retryable_failure_count
