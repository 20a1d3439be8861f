-- ===== src/Queue/Table.antt =====
-- The rows of the table of jobs: finding one, the checks that the table makes of a row
-- (migrations/0001_initial.sql), and updates of one row and of several.
pub mod Rows
use pixiv_archive.Prelude.{
  ℕ, ◌+◌, ◌^◌, ◌-◌, List, [], ◌∷◌, Bool, true, false, not, ◌&&◌, ◌||◌, Option, none, some, String,
  if◌then◌else◌, is_some, is_none, ltb, ◌==◌, str_eq, Outcome, ok, err,
}
use pixiv_archive.Job.State.{
  JobState, queued, running, waiting_account, waiting_storage, completed, failed, cancelled,
}
use pixiv_archive.Job.Kind
use pixiv_archive.Job.Kind.{JobKind}
use pixiv_archive.Job.Retry.{DbError}
use pixiv_archive.Queue.Store.{
  Documents, Units, Database, Tx, Job, ◌>>=◌, ◌>>◌, pure, throw, gets, or_throw, throw_if,
}

-- `state = 'queued'` and the like.
unfoldable pub same_state : JobState → JobState → Bool
same_state queued queued = true
same_state running running = true
same_state waiting_account waiting_account = true
same_state waiting_storage waiting_storage = true
same_state completed completed = true
same_state failed failed = true
same_state cancelled cancelled = true
same_state _ _ = false

abbrev pub is_running : JobState → Bool
is_running running = true
is_running _ = false

-- `a = b` of SQL, which does not hold where the column is NULL.
abbrev pub is_number : Option ℕ → ℕ → Bool
is_number none n = false
is_number (some m) n = m == n

abbrev pub is_text : Option String → String → Bool
is_text none t = false
is_text (some s) t = str_eq s t

abbrev pub is_true : Option Bool → Bool
is_true none = false
is_true (some b) = b

-- `time <= now()` and `time > now()`.
abbrev pub is_due : Option ℕ → ℕ → Bool
is_due none now = false
is_due (some time) now = not (ltb now time)

abbrev pub is_later : Option ℕ → ℕ → Bool
is_later none now = false
is_later (some time) now = ltb now time

-- The kinds that wait for storage: `kind IN ('download_media', 'generate_derivative')`.
unfoldable pub writes_media : JobKind → Bool
writes_media Kind.download_media = true
writes_media Kind.generate_derivative = true
writes_media _ = false

unfoldable pub is_purge : JobKind → Bool
is_purge Kind.purge_trash = true
is_purge _ = false

-- The largest `bigint` and the largest `integer`.
abbrev pub max_i64 : ℕ
max_i64 = 9223372036854775807

abbrev pub max_i32 : ℕ
max_i32 = 2147483647

module _ ⦃J : Documents⦄ where
  open J use {text_field}

  -- A number in the row is out of the range of its column.
  unfoldable pub out_of_range : Job → Bool
  out_of_range job =
      ltb max_i64 job.resource_revision
      || ltb max_i32 job.attempts
      || ltb max_i32 job.retryable_failure_count

  -- No lease and no time of a retry.
  unfoldable pub is_at_rest : Job → Bool
  is_at_rest job =
      is_none job.lease_owner && is_none job.lease_expires_at && is_none job.next_retry_at

  -- job_running_lease_check, job_retry_time_check, job_waiting_account_check,
  -- job_waiting_storage_check and the check of the revision.
  unfoldable pub running_lease_check : Job → Bool
  running_lease_check job =
      if is_running job.state
      then is_some job.lease_owner && is_some job.lease_expires_at
      else not (is_some job.lease_owner && is_some job.lease_expires_at)

  unfoldable pub retry_time_check : Job → Bool
  unfolding same_state
  retry_time_check job = is_none job.next_retry_at || same_state job.state failed

  unfoldable pub waiting_account_check : Job → Bool
  unfolding same_state is_at_rest
  waiting_account_check job =
      not (same_state job.state waiting_account) || (is_some job.pixiv_account_id && is_at_rest job)

  unfoldable pub waiting_storage_check : Job → Bool
  unfolding same_state is_at_rest
  waiting_storage_check job =
      not (same_state job.state waiting_storage) || (writes_media job.kind && is_at_rest job)

  unfoldable pub passes_checks : Job → Bool
  unfolding running_lease_check retry_time_check waiting_account_check waiting_storage_check
  passes_checks job =
      running_lease_check job
      && retry_time_check job
      && waiting_account_check job
      && waiting_storage_check job
      && ltb 0 job.resource_revision

  -- The rows in the index job_one_active_trash_purge_idx.
  unfoldable pub is_active_purge : Job → Bool
  unfolding same_state is_purge
  is_active_purge job =
      is_purge job.kind
      && (same_state job.state queued
          || same_state job.state running
          || same_state job.state waiting_account
          || (same_state job.state failed && is_true job.retryable))

  abbrev pub both_text : Option String → Option String → Bool
  both_text (some s) o = is_text o s
  both_text none o = false

  -- Another row of that index has the key of this one.
  unfoldable pub has_purge_twin : Job → List Job → Bool
  unfolding is_active_purge
  has_purge_twin job [] = false
  has_purge_twin job (other ∷ rest) =
      (is_active_purge job
        && is_active_purge other
        && not (other.id == job.id)
        && both_text (text_field job.payload "work_id") (text_field other.payload "work_id"))
      || has_purge_twin job rest

  -- `WHERE id = $1`, by the primary key.
  unfoldable pub find_job : ℕ → List Job → Option Job
  find_job id [] = none
  find_job id (job ∷ rest) = if job.id == id then some job else find_job id rest

  unfoldable pub replace_job : Job → List Job → List Job
  replace_job job [] = []
  replace_job job (other ∷ rest) =
      if other.id == job.id then job ∷ rest else other ∷ replace_job job rest

  unfoldable pub ids_where : (Job → Bool) → List Job → List ℕ
  ids_where test [] = []
  ids_where test (job ∷ rest) =
      let ids = ids_where test rest in if test job then job.id ∷ ids else ids

module _ ⦃J : Documents⦄ ⦃U : Units⦄ where
  -- What the table refuses a new version of a row for, if it does.
  unfoldable pub row_error : Job → List Job → Option DbError
  row_error job jobs =
      if out_of_range job
      then some DbError.query
      else if not (passes_checks job) || has_purge_twin job jobs
      then some DbError.constraint
      else none

  unfoldable pub write_job : Job → Tx Job
  write_job job db = elim (row_error job db.jobs) [
    | some e ↦ err e
    | none ↦ ok (job, record db { jobs = replace_job job db.jobs })
  ]

  unfoldable pub write_change : (Job → Bool) → (Job → Job) → Option Job → Tx (Option Job)
  write_change test change none = pure none
  write_change test change (some job) =
      if test job then (write_job (change job) >>= λ written. pure (some written)) else pure none

  -- `UPDATE job SET ... WHERE id = $1 AND ... RETURNING ...`.
  unfoldable pub update_job : ℕ → (Job → Bool) → (Job → Job) → Tx (Option Job)
  update_job id test change = do
    job ← gets (λ db. find_job id db.jobs)
    write_change test change job

  abbrev cons_some : Option Job → List Job → List Job
  cons_some none jobs = jobs
  cons_some (some job) jobs = job ∷ jobs

  -- The same update of the rows with the given identifiers, one after another.
  unfoldable pub update_each : List ℕ → (Job → Bool) → (Job → Job) → Tx (List Job)
  update_each [] test change = pure []
  update_each (id ∷ ids) test change = do
    written ← update_job id test change
    rest ← update_each ids test change
    pure (cons_some written rest)

  -- `UPDATE job SET ... WHERE ... RETURNING ...` without the primary key.
  unfoldable pub update_jobs : (Job → Bool) → (Job → Job) → Tx (List Job)
  update_jobs test change = do
    ids ← gets (λ db. ids_where test db.jobs)
    update_each ids test change
