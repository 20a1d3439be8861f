-- ===== src/Queue/Claiming.antt =====
-- How a worker takes a job, looks at its lease and prolongs it (crates/db/src/jobs/claiming.rs).
pub mod Choice
pub mod Exclusive
pub mod Answers
pub mod Begins
use pixiv_archive.Prelude.{
  ℕ, suc, ◌+◌, ◌-◌, ◌/◌, List, [], ◌∷◌, Bool, true, false, not, ◌&&◌, ◌||◌, Option, none, some,
  String, if◌then◌else◌, is_some, is_none, any, ltb, ◌==◌, str_eq, Outcome, ok, err, panicked,
  ◌>>=◌ as ◌then◌,
}
use Prim.Native.Nat.{max}
use pixiv_archive.Prelude.Int.{ℤ, pos, negsuc}
use pixiv_archive.Job.Priority
use pixiv_archive.Job.Priority.{JobPriority}
use pixiv_archive.Job.State
use pixiv_archive.Job.State.{JobState, queued, running, failed}
use pixiv_archive.Job.Kind
use pixiv_archive.Job.Kind.{JobKind}
use pixiv_archive.Job.Selection.{
  JobQuotaSelection, priority_values, kind_values, has_kind_restriction, is_empty_selection,
}
use pixiv_archive.Job.Retry.{DbError}
use pixiv_archive.Queue.Store.{
  Documents, Units, Database, Tx, Job, JobLease, Attempt, job_claimed, ◌>>=◌, ◌>>◌, pure, throw,
  gets, or_throw, throw_if, append_event, transact,
}
use pixiv_archive.Queue.Table.{
  same_state, is_number, is_due, is_later, is_text, is_true, max_i64, find_job, update_job,
}
use pixiv_archive.Queue.Attempts.{close_attempt, insert_attempt}

-- `array_position`, from 0; a claimable row has a place.
unfoldable pub array_position : List String → String → ℕ
array_position [] word = 0
array_position (other ∷ rest) word =
    let place = suc (array_position rest word) in if str_eq other word then 0 else place

-- The order of the `ORDER BY`, on the values of two rows.
unfoldable pub comes_before : ℕ × ℕ × ℕ → ℕ × ℕ × ℕ → Bool
comes_before (place, due, created) (place', due', created') =
    ltb place place' || (place == place' && (ltb due due' || (due == due' && ltb created created')))

-- The `SET` list for the attempt of a lease that has expired.
abbrev pub lapsed : ℕ → Attempt → Attempt
lapsed now attempt = record attempt {
  state = failed;
  finished_at = some now;
  error_class = some "lease_expired";
  retryable = some true;
}

module _ ⦃J : Documents⦄ where
  open J use {Value}

  pub record ClaimedJob : Type 0 where
    pub id : ℕ
    pub priority : JobPriority
    pub kind : String
    pub payload : Value
    pub state : JobState
    pub attempt_number : ℕ
    pub lease_owner : ℕ
    pub lease_expires_at : ℕ
    pub resource_revision : ℕ

  unfoldable pub lease_of : ClaimedJob → JobLease
  lease_of claimed = record {
    job_id = claimed.id;
    resource_revision = claimed.resource_revision;
    lease_owner = claimed.lease_owner;
  }

  -- `state = 'running' AND lease_expires_at <= now()`.
  unfoldable pub lease_expired : ℕ → Job → Bool
  lease_expired now job = same_state job.state running && is_due job.lease_expires_at now

  -- The `WHERE` of the candidates.
  unfoldable pub can_claim : ℕ → JobQuotaSelection → Job → Bool
  unfolding lease_expired
  can_claim now selection job =
      any (λ word. str_eq word (Priority.as_str job.priority)) (priority_values selection)
      && ((not (has_kind_restriction selection)
            || any (λ word. str_eq word (Kind.as_str job.kind)) (kind_values selection))
          && (not (ltb now job.available_at)
              && (same_state job.state queued
                  || lease_expired now job
                  || (same_state job.state failed
                      && (is_true job.retryable && is_due job.next_retry_at now)))))

  abbrev coalesce : Option ℕ → ℕ → ℕ
  coalesce none time = time
  coalesce (some time) other = time

  unfoldable pub claim_order : JobQuotaSelection → Job → ℕ × ℕ × ℕ
  unfolding array_position
  claim_order selection job = (
    array_position (priority_values selection) (Priority.as_str job.priority),
    coalesce job.next_retry_at job.available_at,
    job.created_at,
  )

  -- `ORDER BY ... LIMIT 1` of the claimable rows that no other transaction has locked.
  unfoldable pub candidate : (ℕ → Bool) → ℕ → JobQuotaSelection → List Job → Option Job
  unfolding can_claim claim_order comes_before
  candidate locked now selection [] = none
  candidate locked now selection (job ∷ rest) =
      let later = candidate locked now selection rest in
      if can_claim now selection job && not (locked job.id)
      then elim later [
        | none ↦ some job
        | some other ↦
            if comes_before (claim_order selection other) (claim_order selection job)
            then some other
            else some job
      ]
      else later

  abbrev pub claimed_row : ℕ → ℕ → ℕ → Job → Job
  claimed_row now owner microseconds job = record job {
    state = running;
    lease_owner = some owner;
    lease_expires_at = some (now + microseconds);
    attempts = job.attempts + 1;
    error_class = none;
    retryable = none;
    next_retry_at = none;
    updated_at = now;
    resource_revision = job.resource_revision + 1;
  }

  abbrev pub new_attempt : ℕ → Job → Attempt
  new_attempt now job = record {
    job_id = job.id;
    attempt_number = job.attempts;
    state = running;
    started_at = now;
    finished_at = none;
    error_class = none;
    retryable = none;
    message = none;
  }

  abbrev with_lease :
      Job → Option JobPriority → Option JobState → Option ℕ → Option ℕ → Outcome DbError ClaimedJob
  with_lease job (some priority) (some state) (some expires) (some owner) = ok (record {
    id = job.id;
    priority = priority;
    kind = Kind.as_str job.kind;
    payload = job.payload;
    state = state;
    attempt_number = job.attempts;
    lease_owner = owner;
    lease_expires_at = expires;
    resource_revision = job.resource_revision;
  })
  with_lease _ _ _ _ _ = err DbError.invalid_value

  -- The end of `claim_next`, after its transaction.
  unfoldable pub claimed_from_row : Job → Outcome DbError ClaimedJob
  claimed_from_row job =
      with_lease job (Priority.from_db_value (Priority.as_str job.priority))
        (State.from_db_value (State.as_str job.state)) job.lease_expires_at job.lease_owner

-- A duration is a number of nanoseconds. `whole_microseconds` of a positive one, as an `i64`.
abbrev pub microseconds_of : ℤ → Option ℕ
microseconds_of (pos n) = if ltb max_i64 (n / 1000) then none else some (n / 1000)
microseconds_of (negsuc n) = none

abbrev pub at_most_zero : ℤ → Bool
at_most_zero (pos n) = n == 0
at_most_zero (negsuc n) = true

pub data JobLeaseStatus : Type 0 where
  active completed cancelled superseded expired : JobLeaseStatus

pub record JobHeartbeatRecord : Type 0 where
  pub resource_revision : ℕ
  pub lease_expires_at : ℕ

module _ ⦃J : Documents⦄ ⦃U : Units⦄ where
  unfoldable pub close_lapsed : ℕ → Bool → ℕ → ℕ → Tx (Unit {0})
  close_lapsed now true id number = close_attempt id (number - 1) (lapsed now)
  close_lapsed now false id number = pure tt

  -- The transaction for a candidate.
  unfoldable pub claim_job : ℕ → ℕ → ℕ → Job → Tx (Option Job)
  unfolding lease_expired
  claim_job now owner microseconds chosen = do
    updated ← update_job chosen.id (λ job. true) (claimed_row now owner microseconds)
    row ← or_throw DbError.not_found updated
    close_lapsed now (lease_expired now chosen) row.id row.attempts
    insert_attempt (new_attempt now row)
    append_event row.id (job_claimed row.resource_revision)
    pure (some row)

  unfoldable pub claim_if_some : ℕ → ℕ → ℕ → Option Job → Tx (Option Job)
  claim_if_some now owner microseconds none = pure none
  claim_if_some now owner microseconds (some chosen) = claim_job now owner microseconds chosen

  unfoldable pub claim_in_tx : (ℕ → Bool) → ℕ → ℕ → JobQuotaSelection → ℤ → Tx (Option Job)
  claim_in_tx locked now owner selection lease_duration = do
    throw_if (at_most_zero lease_duration) DbError.invalid_value
    if is_empty_selection selection then pure none else (do
      microseconds ← or_throw DbError.invalid_value (microseconds_of lease_duration)
      chosen ← gets (λ db. candidate locked now selection db.jobs)
      claim_if_some now owner microseconds chosen)

  abbrev decode_claim : Outcome DbError (Option Job) → Outcome DbError (Option ClaimedJob)
  decode_claim (ok none) = ok none
  decode_claim (ok (some row)) = elim (claimed_from_row row) [
    | ok claimed ↦ ok (some claimed)
    | err e ↦ err e
    | panicked ↦ panicked
  ]
  decode_claim (err e) = err e
  decode_claim panicked = panicked

  unfoldable pub claim_next :
      (ℕ → Bool)
      → ℕ
      → ℕ
      → JobQuotaSelection
      → ℤ
      → Database
      → Outcome DbError (Option ClaimedJob) × Database
  claim_next locked now owner selection lease_duration db =
      let (answer, next) = transact (claim_in_tx locked now owner selection lease_duration) db in
      (decode_claim answer, next)

  -- The revision that the completion of the claimed attempt gives, unless it overflows.
  abbrev next_revision : ℕ → Option ℕ
  next_revision revision = if ltb revision max_i64 then some (revision + 1) else none

  unfoldable pub status_of_row : ℕ → ClaimedJob → Job → Outcome DbError JobLeaseStatus
  status_of_row now claimed job =
      if same_state job.state State.cancelled
      then ok cancelled
      else if same_state job.state State.completed
          && (job.attempts == claimed.attempt_number
              && is_number (next_revision claimed.resource_revision) job.resource_revision)
      then ok completed
      else if not (same_state job.state running)
          || not (job.attempts == claimed.attempt_number)
          || not (job.resource_revision == claimed.resource_revision)
          || not (is_number job.lease_owner claimed.lease_owner)
      then ok superseded
      else if is_none job.lease_expires_at
      then err DbError.invalid_value
      else if is_later job.lease_expires_at now
      then ok active
      else ok expired

  unfoldable pub lease_status : ℕ → ClaimedJob → Database → Outcome DbError JobLeaseStatus
  lease_status now claimed db = elim (find_job claimed.id db.jobs) [
    | none ↦ err DbError.not_found
    | some job ↦ status_of_row now claimed job
  ]

  abbrev later_of : Option ℕ → ℕ → Option ℕ
  later_of none time = some time
  later_of (some old) time = some (max old time)

  abbrev pub prolonged : ℕ → ℕ → Job → Job
  prolonged now microseconds job = record job {
    lease_expires_at = later_of job.lease_expires_at (now + microseconds);
    updated_at = now;
  }

  -- Why no row was prolonged.
  unfoldable pub heartbeat_error : ℕ → ℕ → Option Job → DbError
  heartbeat_error revision owner none = DbError.revision_conflict
  heartbeat_error revision owner (some job) =
      if not (same_state job.state running) || not (job.resource_revision == revision)
      then DbError.revision_conflict
      else DbError.lease_conflict

  -- `row.get` panics where the column is NULL.
  unfoldable pub heartbeat_record : Job → Option ℕ → Tx JobHeartbeatRecord
  heartbeat_record row none db = panicked
  heartbeat_record row (some expires) db =
      ok (record { resource_revision = row.resource_revision; lease_expires_at = expires }, db)

  unfoldable pub answer_heartbeat : ℕ → ℕ → ℕ → Option Job → Tx JobHeartbeatRecord
  answer_heartbeat id revision owner (some row) = heartbeat_record row row.lease_expires_at
  answer_heartbeat id revision owner none = do
    current ← gets (λ db. find_job id db.jobs)
    throw (heartbeat_error revision owner current)

  unfoldable pub heartbeat : ℕ → ℕ → ℕ → ℕ → ℤ → Tx JobHeartbeatRecord
  heartbeat now id expected_revision owner extend_by = do
    throw_if (at_most_zero extend_by) DbError.invalid_value
    microseconds ← or_throw DbError.invalid_value (microseconds_of extend_by)
    row ←
        update_job id
          (λ job.
            job.resource_revision == expected_revision
            && (is_number job.lease_owner owner
                && (same_state job.state running && is_later job.lease_expires_at now)))
          (prolonged now microseconds)
    answer_heartbeat id expected_revision owner row
