-- ===== src/Queue/Attempts.antt =====
-- The table of attempts at jobs: the numbers of the attempts at a job, closing the attempt that
-- runs, and inserting the next one (crates/db/src/jobs, migrations/0001_initial.sql).
pub mod Effects
pub mod Numbers
use pixiv_archive.Prelude.{
  ℕ, zero, suc, List, [], ◌∷◌, ◌++◌, Bool, true, false, not, ◌&&◌, ◌||◌, Option, none, some, String,
  map, if◌then◌else◌, is_some, is_none, is_empty, all, any, length, leb, ltb, ◌==◌, Outcome, ok,
  err,
}
use pixiv_archive.Job.State.{
  JobState, queued, running, waiting_account, waiting_storage, completed, failed, cancelled,
}
use pixiv_archive.Job.Retry.{DbError}
use Prim.Native.Nat.{max}
use pixiv_archive.Queue.Store.{
  Documents, Units, Database, Tx, Attempt, ◌>>=◌, ◌>>◌, pure, throw, gets, or_throw, throw_if,
}
use pixiv_archive.Queue.Table.{is_running, max_i32}

-- The numbers of the attempts at a job, and of those that run.
unfoldable pub numbers : ℕ → List Attempt → List ℕ
numbers id [] = []
numbers id (attempt ∷ rest) =
    let others = numbers id rest in
    if attempt.job_id == id then attempt.attempt_number ∷ others else others

unfoldable pub open_numbers : ℕ → List Attempt → List ℕ
open_numbers id [] = []
open_numbers id (attempt ∷ rest) =
    let others = open_numbers id rest in
    if attempt.job_id == id && is_running attempt.state
    then attempt.attempt_number ∷ others
    else others

-- `max(attempt_number)`; the number of an attempt is positive, and no attempt has the number 0.
unfoldable pub highest : List ℕ → ℕ
highest [] = 0
highest (n ∷ ns) = max n (highest ns)

-- `WHERE job_id = $1 AND state = 'running' AND attempt_number = ...`.
abbrev pub is_open : ℕ → ℕ → Attempt → Bool
is_open id number attempt =
    attempt.job_id == id && (is_running attempt.state && attempt.attempt_number == number)

-- How an attempt ends.
pub record Ending : Type 0 where
  pub state : JobState
  pub error_class : Option String
  pub retryable : Option Bool
  pub message : Option String

abbrev pub ended : Ending → ℕ → Attempt → Attempt
ended ending now attempt = record attempt {
  state = ending.state;
  finished_at = some now;
  error_class = ending.error_class;
  retryable = ending.retryable;
  message = ending.message;
}

-- job_attempt_state_check has no 'queued' and no 'waiting_account'.
abbrev pub attempt_state_check : JobState → Bool
attempt_state_check queued = false
attempt_state_check waiting_account = false
attempt_state_check _ = true

abbrev pub finish_check : Attempt → Option ℕ → Bool
finish_check attempt none = is_running attempt.state
finish_check attempt (some finished) =
    not (is_running attempt.state) && leb attempt.started_at finished

-- The checks that the table makes of a row.
unfoldable pub attempt_checks : Attempt → Bool
attempt_checks attempt =
    attempt_state_check attempt.state
    && finish_check attempt attempt.finished_at
    && ltb 0 attempt.attempt_number

unfoldable pub end_where : (Attempt → Bool) → (Attempt → Attempt) → List Attempt → List Attempt
end_where test change [] = []
end_where test change (attempt ∷ rest) =
    (if test attempt then change attempt else attempt) ∷ end_where test change rest

unfoldable pub count_where : (Attempt → Bool) → List Attempt → ℕ
count_where test [] = 0
count_where test (attempt ∷ rest) =
    let others = count_where test rest in if test attempt then suc others else others

unfoldable pub lets_in : (Attempt → Bool) → (Attempt → Attempt) → List Attempt → Bool
lets_in test change [] = true
lets_in test change (attempt ∷ rest) =
    (not (test attempt) || attempt_checks (change attempt)) && lets_in test change rest

-- A new row beside the others: `UNIQUE (job_id, attempt_number)` and job_attempt_one_running_idx.
unfoldable pub fits : Attempt → List Attempt → Bool
unfolding numbers open_numbers attempt_checks
fits attempt attempts =
    attempt_checks attempt
    && not (any (λ n. n == attempt.attempt_number) (numbers attempt.job_id attempts))
    && not (is_running attempt.state && not (is_empty (open_numbers attempt.job_id attempts)))

module _ ⦃J : Documents⦄ ⦃U : Units⦄ where
  -- `UPDATE job_attempt`, and how many rows it has changed.
  unfoldable pub update_attempts : (Attempt → Bool) → (Attempt → Attempt) → Tx ℕ
  update_attempts test change db =
      if lets_in test change db.attempts
      then ok
          (count_where test db.attempts, record db { attempts = end_where test change db.attempts })
      else err DbError.constraint

  -- `if closed.rows_affected() != 1 { return Err(DbError::LeaseConflict); }` after the update.
  unfoldable pub close_attempt : ℕ → ℕ → (Attempt → Attempt) → Tx (Unit {0})
  close_attempt id number change = do
    closed ← update_attempts (is_open id number) change
    throw_if (not (closed == 1)) DbError.lease_conflict

  unfoldable pub close_running_attempt : ℕ → ℕ → Ending → Tx (Unit {0})
  close_running_attempt now id ending = do
    number ← gets (λ db. highest (numbers id db.attempts))
    close_attempt id number (ended ending now)

  unfoldable pub insert_attempt : Attempt → Tx (Unit {0})
  insert_attempt attempt db =
      if fits attempt db.attempts
      then ok (tt, record db { attempts = db.attempts ++ attempt ∷ [] })
      else err DbError.constraint
