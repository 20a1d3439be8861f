-- ===== src/Queue/Insertion.antt =====
-- The insertion of a job (crates/db/src/jobs/enqueue.rs), and the operations on the units of
-- subscription runs as parts of the queue's transactions, since they insert the jobs of a pending
-- run (crates/db/src/subscriptions/units.rs). The identifier of a new job is an argument.
pub mod Grows
use pixiv_archive.Prelude.{
  ℕ, List, [], ◌∷◌, ◌++◌, Bool, true, not, ◌||◌, Option, none, some, String, if◌then◌else◌, is_some,
  ◌==◌, Outcome, ok, err, panicked, map,
}
use pixiv_archive.Job.Priority.{JobPriority}
use pixiv_archive.Job.State.{JobState, queued, waiting_account}
use pixiv_archive.Job.Kind.{JobKind, known_kind}
use pixiv_archive.Job.Retry.{DbError}
use pixiv_archive.Subscription.Account
use pixiv_archive.Subscription.Account.{PixivAccountState}
use pixiv_archive.Queue.Store
use pixiv_archive.Queue.Store.{
  Documents, NewJob, UnitSteps, leave, fail_with, panic, enqueue, append, Units, Database, Tx, Job,
  EventPayload, job_queued, job_waiting_account, ◌>>=◌, ◌>>◌, pure, gets, or_throw, append_event,
}
use pixiv_archive.Queue.Table.{find_job, row_error}

unfoldable pub find_account : ℕ → List Store.Account → Option Store.Account
find_account id [] = none
find_account id (account ∷ rest) = if account.id == id then some account else find_account id rest

-- The two `CASE` expressions on the state of the job's account.
abbrev pub first_state : Option PixivAccountState → JobState
first_state (some Account.unconfigured) = waiting_account
first_state (some Account.credential_invalid) = waiting_account
first_state _ = queued

abbrev first_error : Option PixivAccountState → Option String
first_error (some Account.credential_invalid) = some "credential_invalid"
first_error _ = none

abbrev account_state : Option Store.Account → Option PixivAccountState
account_state none = none
account_state (some account) = some account.state

-- The reference to the table of accounts holds.
abbrev refers : Option ℕ → Option PixivAccountState → Bool
refers none state = true
refers (some id) state = is_some state

abbrev owner_state : Option ℕ → List Store.Account → Option PixivAccountState
owner_state none accounts = none
owner_state (some id) accounts = account_state (find_account id accounts)

module _ ⦃J : Documents⦄ where
  open J use {Value}

  -- The inserted row, with the defaults of the table.
  unfoldable pub first_row : ℕ → ℕ → NewJob → JobKind → Option PixivAccountState → Job
  first_row now id job kind state = record {
    id = id;
    priority = job.priority;
    kind = kind;
    payload = job.payload;
    state = first_state state;
    attempts = 0;
    available_at = job.available_at;
    lease_owner = none;
    lease_expires_at = none;
    error_class = first_error state;
    retryable = none;
    next_retry_at = none;
    resource_revision = 1;
    created_at = now;
    updated_at = now;
    pixiv_account_id = job.pixiv_account_id;
    retryable_failure_count = 0;
  }

module _ ⦃J : Documents⦄ ⦃U : Units⦄ where
  open U use {Tables}

  -- `INSERT INTO job`: the primary key, the reference to the account, the checks and the index.
  unfoldable pub insert_job : Job → Bool → Tx (Unit {0})
  insert_job row refers_to_account db =
      if is_some (find_job row.id db.jobs)
        || not refers_to_account
        || is_some (row_error row db.jobs)
      then err DbError.constraint
      else ok (tt, record db { jobs = db.jobs ++ row ∷ [] })

  abbrev first_event : JobState → EventPayload
  first_event waiting_account = job_waiting_account 1
  first_event _ = job_queued 1

  unfoldable pub enqueue_in_tx : ℕ → ℕ → NewJob → Tx ℕ
  enqueue_in_tx now id job = do
    kind ← or_throw DbError.constraint (known_kind job.kind)
    state ← gets (λ db. owner_state job.pixiv_account_id db.accounts)
    insert_job (first_row now id job kind state) (refers job.pixiv_account_id state)
    append_event id (first_event (first_state state))
    pure id

  -- The statements of an operation on units, in the transaction that calls it.
  unfoldable pub run_steps : ℕ → UnitSteps Tables → Tx (Unit {0})
  run_steps now (leave tables) db = ok (tt, record db { units = tables })
  run_steps now (fail_with e) db = err e
  run_steps now panic db = panicked
  run_steps now (enqueue id job rest) db = (enqueue_in_tx now id job >>= λ a. run_steps now rest) db
  run_steps now (append id payload rest) db =
      (append_event id payload >>= λ a. run_steps now rest) db

  abbrev priority_of : Option Job → Option JobPriority
  priority_of none = none
  priority_of (some job) = some job.priority

  -- A call of an operation on the units of a job.
  unfoldable pub on_units :
      ℕ → ℕ → (ℕ → Option JobPriority → Tables → UnitSteps Tables) → Tx (Unit {0})
  on_units now id step db = run_steps now (step id (priority_of (find_job id db.jobs)) db.units) db
