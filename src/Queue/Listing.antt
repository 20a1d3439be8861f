-- ===== src/Queue/Listing.antt =====
-- The listings and the counts of jobs (crates/db/src/jobs/listing.rs).
pub mod Counts
use pixiv_archive.Prelude.{
  ℕ, zero, suc, ◌+◌, List, [], ◌∷◌, Bool, true, false, not, ◌&&◌, ◌||◌, Option, none, some, String,
  if◌then◌else◌, ltb, ◌==◌, str_eq, Outcome, ok, err, panicked,
}
use pixiv_archive.Job.State.{JobState, queued, running, waiting_account, waiting_storage, failed}
use pixiv_archive.Job.Kind
use pixiv_archive.Job.Retry.{DbError}
use pixiv_archive.Queue.Store.{Documents, Units, Database, Job, Attempt}
use pixiv_archive.Queue.Table.{same_state, is_true, find_job}
use pixiv_archive.Queue.Transitions.{JobRecord, job_from_row}

pub record JobStats : Type 0 where
  pub total : ℕ
  pub running : ℕ
  pub waiting : ℕ
  pub requires_attention : ℕ

-- `count(*) FILTER (WHERE ...)`.
unfoldable pub count_jobs : ⦃J : Documents⦄ → (Job → Bool) → List Job → ℕ
count_jobs test [] = 0
count_jobs test (job ∷ rest) =
    let others = count_jobs test rest in if test job then suc others else others

module _ ⦃J : Documents⦄ where
  abbrev pub is_counted_running : Job → Bool
  is_counted_running job = same_state job.state running

  abbrev pub is_counted_waiting : Job → Bool
  is_counted_waiting job =
      same_state job.state queued
      || same_state job.state waiting_storage
      || (same_state job.state failed && is_true job.retryable)

  -- `retryable IS DISTINCT FROM true` holds of NULL too.
  abbrev pub needs_attention : Job → Bool
  needs_attention job =
      same_state job.state waiting_account
      || (same_state job.state failed && not (is_true job.retryable))

  -- `job_count` cannot fail: a count is not negative.
  unfoldable pub stats : List Job → JobStats
  unfolding count_jobs
  stats jobs = record {
    total = count_jobs (λ job. true) jobs;
    running = count_jobs is_counted_running jobs;
    waiting = count_jobs is_counted_waiting jobs;
    requires_attention = count_jobs needs_attention jobs;
  }

  abbrev of_kind : Option String → Job → Bool
  of_kind none job = true
  of_kind (some kind) job = str_eq (Kind.as_str job.kind) kind

  abbrev has_error : Bool → Job → Bool
  has_error false job = true
  has_error true job = same_state job.state failed || same_state job.state waiting_account

  -- `ORDER BY created_at DESC, id DESC`.
  unfoldable pub is_newer : Job → Job → Bool
  is_newer job other =
      ltb other.created_at job.created_at
      || (job.created_at == other.created_at && ltb other.id job.id)

  unfoldable pub insert_newest : Job → List Job → List Job
  insert_newest job [] = job ∷ []
  insert_newest job (other ∷ rest) =
      let later = insert_newest job rest in
      if is_newer other job then other ∷ later else job ∷ other ∷ rest

  unfoldable pub newest_first : (Job → Bool) → List Job → List Job
  unfolding insert_newest is_newer
  newest_first test [] = []
  newest_first test (job ∷ rest) =
      let others = newest_first test rest in if test job then insert_newest job others else others

  abbrev take : ℕ → List Job → List Job
  take zero jobs = []
  take (suc n) [] = []
  take (suc n) (job ∷ rest) = job ∷ take n rest

  abbrev cons_ok :
      Outcome DbError JobRecord
      → Outcome DbError (List JobRecord)
      → Outcome DbError (List JobRecord)
  cons_ok (ok job) (ok jobs) = ok (job ∷ jobs)
  cons_ok (ok job) (err e) = err e
  cons_ok (ok job) panicked = panicked
  cons_ok (err e) jobs = err e
  cons_ok panicked jobs = panicked

  -- `rows.iter().map(job_from_row).collect()`.
  unfoldable pub collect : List Job → Outcome DbError (List JobRecord)
  collect [] = ok []
  collect (job ∷ rest) = cons_ok (job_from_row job) (collect rest)

  unfoldable pub list_filtered :
      ℕ → Option String → Bool → List Job → Outcome DbError (List JobRecord)
  unfolding collect newest_first
  list_filtered limit kind errors_only jobs =
      if limit == 0 || ltb 200 limit
      then err DbError.invalid_value
      else collect
          (take limit (newest_first (λ job. of_kind kind job && has_error errors_only job) jobs))

  unfoldable pub get : ℕ → List Job → Outcome DbError JobRecord
  get id jobs = elim (find_job id jobs) [
    | none ↦ err DbError.not_found
    | some job ↦ job_from_row job
  ]
