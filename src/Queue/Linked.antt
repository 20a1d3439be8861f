-- ===== src/Queue/Linked.antt =====
-- The import run that a job carries out, and what the end of the job does to it
-- (crates/db/src/jobs/transitions.rs).
use pixiv_archive.Prelude.{
  ℕ, suc, List, [], ◌∷◌, Bool, true, false, not, ◌&&◌, ◌||◌, Option, none, some, String,
  if◌then◌else◌, ◌==◌, ok,
}
use pixiv_archive.Prelude.Int.{ℤ, pos, negsuc}
use pixiv_archive.Job.Retry.{DbError}
use pixiv_archive.Subscription.ImportStatus
use pixiv_archive.Subscription.ImportStatus.{ImportRunStatus, is_successful_terminal}
use pixiv_archive.Queue.Store.{Documents, Units, Tx, ImportRun, ◌>>=◌, ◌>>◌, pure, gets, throw_if}
use pixiv_archive.Queue.Table.{is_number}

pub record ImportJobCompletion : Type 0 where
  pub status : ImportRunStatus
  pub discovered_count : ℤ
  pub saved_count : ℤ

abbrev is_negative : ℤ → Bool
is_negative (pos n) = false
is_negative (negsuc n) = true

-- `status IN ('queued', 'running')` and `status IN ('queued', 'failed')`.
abbrev is_unfinished : ImportRunStatus → Bool
is_unfinished ImportStatus.queued = true
is_unfinished ImportStatus.running = true
is_unfinished _ = false

abbrev can_restart : ImportRunStatus → Bool
can_restart ImportStatus.queued = true
can_restart ImportStatus.failed = true
can_restart _ = false

abbrev has_failed : ImportRunStatus → Bool
has_failed ImportStatus.failed = true
has_failed _ = false

abbrev coalesce : {A : Type 0} → Option A → A → A
coalesce none a = a
coalesce (some b) a = b

unfoldable pub count_runs : (ImportRun → Bool) → List ImportRun → ℕ
count_runs test [] = 0
count_runs test (run ∷ rest) =
    let others = count_runs test rest in if test run then suc others else others

unfoldable pub change_runs :
    (ImportRun → Bool) → (ImportRun → ImportRun) → List ImportRun → List ImportRun
change_runs test change [] = []
change_runs test change (run ∷ rest) =
    (if test run then change run else run) ∷ change_runs test change rest

-- `SELECT status FROM import_run WHERE job_id = $1`.
unfoldable pub status_of : ℕ → List ImportRun → Option ImportRunStatus
status_of id [] = none
status_of id (run ∷ rest) =
    let later = status_of id rest in if is_number run.job_id id then some run.status else later

module _ ⦃J : Documents⦄ ⦃U : Units⦄ where
  -- `UPDATE import_run`, and how many rows it has changed.
  unfoldable pub update_runs : (ImportRun → Bool) → (ImportRun → ImportRun) → Tx ℕ
  update_runs test change db = ok (
    count_runs test db.import_runs,
    record db { import_runs = change_runs test change db.import_runs },
  )

  unfoldable pub complete_linked_import_run : ℕ → ℕ → ImportJobCompletion → Tx (Unit {0})
  complete_linked_import_run now id completion = do
    throw_if
        (not (is_successful_terminal completion.status)
          || is_negative completion.discovered_count
          || is_negative completion.saved_count)
        DbError.invalid_value
    updated ←
        update_runs (λ run. is_number run.job_id id && is_unfinished run.status)
          (λ run. record run {
            status = completion.status;
            discovered_count = completion.discovered_count;
            saved_count = completion.saved_count;
            error_class = none;
            error_message = none;
            finished_at = some now;
          })
    throw_if (not (updated == 1)) DbError.revision_conflict

  abbrev none_or_failed : Option ImportRunStatus → Bool
  none_or_failed none = true
  none_or_failed (some status) = has_failed status

  -- The check that follows an update of other than one row.
  unfoldable pub expect_status : ℕ → ℕ → (Option ImportRunStatus → Bool) → Tx (Unit {0})
  expect_status updated id allowed =
      if updated == 1
      then pure tt
      else (gets (λ db. status_of id db.import_runs) >>= λ status.
          throw_if (not (allowed status)) DbError.revision_conflict)

  unfoldable pub fail_linked_import_run : ℕ → ℕ → String → Option String → Tx (Unit {0})
  unfolding expect_status
  fail_linked_import_run now id error_class message = do
    updated ←
        update_runs (λ run. is_number run.job_id id && is_unfinished run.status)
          (λ run. record run {
            status = ImportStatus.failed;
            error_class = some error_class;
            error_message = some (coalesce message error_class);
            finished_at = some now;
          })
    expect_status updated id none_or_failed

  unfoldable pub cancel_linked_import_run : ℕ → ℕ → Tx (Unit {0})
  cancel_linked_import_run now id = do
    updated ←
        update_runs (λ run. is_number run.job_id id && is_unfinished run.status)
          (λ run. record run {
            status = ImportStatus.cancelled;
            error_class = none;
            error_message = none;
            finished_at = some now;
          })
    pure tt

  abbrev is_absent : Option ImportRunStatus → Bool
  is_absent none = true
  is_absent (some _) = false

  unfoldable pub reset_linked_import_run_for_retry : ℕ → Tx (Unit {0})
  unfolding expect_status
  reset_linked_import_run_for_retry id = do
    updated ←
        update_runs (λ run. is_number run.job_id id && can_restart run.status)
          (λ run. record run {
            status = ImportStatus.queued;
            discovered_count = pos 0;
            saved_count = pos 0;
            error_class = none;
            error_message = none;
            started_at = none;
            finished_at = none;
          })
    expect_status updated id is_absent
