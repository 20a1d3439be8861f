-- ===== src/Queue/Store.antt =====
-- The tables that the job queue reads and writes (migrations/0001_initial.sql), and a transaction
-- over them. An identifier is a number, and a moment a number of microseconds.
use pixiv_archive.Prelude.{
  ℕ, List, Bool, true, false, Option, none, some, String, Outcome, ok, err, panicked, ◌++◌, ◌∷◌, [],
}
use pixiv_archive.Prelude.Int.{ℤ}
use pixiv_archive.Job.Priority.{JobPriority}
use pixiv_archive.Job.State.{JobState}
use pixiv_archive.Job.Kind.{JobKind}
use pixiv_archive.Job.Retry.{DbError}
use pixiv_archive.Subscription.Account.{PixivAccountState}
use pixiv_archive.Subscription.ImportStatus.{ImportRunStatus}

-- JSON values, the texts of their fields (`payload ->> 'name'`), and the object whose fields have
-- some texts.
pub record Documents : Type 1 where
  pub Value : Type 0
  pub text_field : Value → String → Option String
  pub object : List (String × String) → Value

pub record Attempt : Type 0 where
  pub job_id : ℕ
  pub attempt_number : ℕ
  pub state : JobState
  pub started_at : ℕ
  pub finished_at : Option ℕ
  pub error_class : Option String
  pub retryable : Option Bool
  pub message : Option String

pub record ImportRun : Type 0 where
  pub job_id : Option ℕ
  pub status : ImportRunStatus
  pub discovered_count : ℤ
  pub saved_count : ℤ
  pub error_class : Option String
  pub error_message : Option String
  pub started_at : Option ℕ
  pub finished_at : Option ℕ

pub record ArtifactIntent : Type 0 where
  pub job_id : ℕ
  pub cleanup_after : ℕ

pub record TrashEntry : Type 0 where
  pub work_id : String
  pub purge_attempts : ℕ

pub record Account : Type 0 where
  pub id : ℕ
  pub state : PixivAccountState
  pub revision : ℕ
  pub updated_at : ℕ

pub data EventPayload : Type 0 where
  job_queued job_claimed job_completed job_failed job_waiting_account job_released_from_account_wait
        job_waiting_storage job_released_from_storage_wait job_cancelled pixiv_account_changed
        subscription_changed :
      ℕ → EventPayload

pub record Event : Type 0 where
  pub resource_id : ℕ
  pub payload : EventPayload

pub record JobLease : Type 0 where
  pub job_id : ℕ
  pub resource_revision : ℕ
  pub lease_owner : ℕ

module _ ⦃J : Documents⦄ where
  open J use {Value}

  pub record NewJob : Type 0 where
    pub priority : JobPriority
    pub kind : String
    pub payload : Value
    pub pixiv_account_id : Option ℕ
    pub available_at : ℕ

  -- What an operation on the unit of a subscription run does in its transaction, from the tables of
  -- subscriptions that it finds: the jobs that it enqueues, under their new identifiers, and the
  -- events that it appends, in their order, and in the end the tables that it leaves, or an error.
  pub data UnitSteps (Tables : Type 0) : Type 0 where
    leave : Tables → UnitSteps Tables
    fail_with : DbError → UnitSteps Tables
    panic : UnitSteps Tables
    enqueue : ℕ → NewJob → UnitSteps Tables → UnitSteps Tables
    append : ℕ → EventPayload → UnitSteps Tables → UnitSteps Tables

  -- What the queue asks of the units of subscription runs (crates/db/src/subscriptions/units.rs).
  -- Each operation gets the identifier of the job and the priority in its row, which the jobs of a
  -- pending run take over.
  pub record Units : Type 1 where
    pub Tables : Type 0
    pub Finished : Type 0
    pub complete_linked_unit : ℕ → Option JobPriority → Finished → Tables → UnitSteps Tables
    pub fail_linked_unit :
        ℕ → Option JobPriority → String → Option String → Tables → UnitSteps Tables
    pub cancel_linked_unit : ℕ → Option JobPriority → Tables → UnitSteps Tables
    pub reset_linked_unit : ℕ → Option JobPriority → Tables → UnitSteps Tables

module _ ⦃J : Documents⦄ where
  open J use {Value}

  pub record Job : Type 0 where
    pub id : ℕ
    pub priority : JobPriority
    pub kind : JobKind
    pub payload : Value
    pub state : JobState
    pub attempts : ℕ
    pub available_at : ℕ
    pub lease_owner : Option ℕ
    pub lease_expires_at : Option ℕ
    pub error_class : Option String
    pub retryable : Option Bool
    pub next_retry_at : Option ℕ
    pub resource_revision : ℕ
    pub created_at : ℕ
    pub updated_at : ℕ
    pub pixiv_account_id : Option ℕ
    pub retryable_failure_count : ℕ

module _ ⦃J : Documents⦄ ⦃U : Units⦄ where
  open U use {Tables}

  pub record Database : Type 0 where
    pub jobs : List Job
    pub attempts : List Attempt
    pub import_runs : List ImportRun
    pub intents : List ArtifactIntent
    pub trash : List TrashEntry
    pub accounts : List Account
    pub events : List Event
    pub units : Tables

  -- The statements of a transaction: a result and the tables as the transaction sees them, or an
  -- error, on which the transaction is dropped.
  abbrev pub Tx : Type 0 → Type 0
  Tx A = Database → Outcome DbError (A × Database)

  -- `m().await?`: an error ends the transaction.
  infixl 5 ◌>>=◌ ◌>>◌
  unfoldable pub ◌>>=◌ : {A B : Type 0} → Tx A → (A → Tx B) → Tx B
  ◌>>=◌ m f db = elim (m db) [ ok r ↦ f r.0 r.1 | err e ↦ err e | panicked ↦ panicked ]

  abbrev pub ◌>>◌ : {B : Type 0} → Tx (Unit {0}) → Tx B → Tx B
  m >> rest = m >>= λ _. rest

  unfoldable pub pure : {A : Type 0} → A → Tx A
  pure a db = ok (a, db)

  unfoldable pub throw : {A : Type 0} → DbError → Tx A
  throw e db = err e

  unfoldable pub gets : {A : Type 0} → (Database → A) → Tx A
  gets f db = ok (f db, db)

  unfoldable pub or_throw : {A : Type 0} → DbError → Option A → Tx A
  or_throw e none db = err e
  or_throw e (some a) db = ok (a, db)

  unfoldable pub throw_if : Bool → DbError → Tx (Unit {0})
  throw_if true e db = err e
  throw_if false e db = ok (tt, db)

  -- `EventRepository::append_in_tx`.
  unfoldable pub append_event : ℕ → EventPayload → Tx (Unit {0})
  append_event id payload db =
      ok (
        tt,
        record db { events = db.events ++ record { resource_id = id; payload = payload } ∷ [] },
      )

  -- `begin` and `commit` around a transaction: an error leaves the tables as they were.
  unfoldable pub settle :
      {A : Type 0} → Outcome DbError (A × Database) → Database → Outcome DbError A × Database
  settle (ok r) db = (ok r.0, r.1)
  settle (err e) db = (err e, db)
  settle panicked db = (panicked, db)

  unfoldable pub transact : {A : Type 0} → Tx A → Database → Outcome DbError A × Database
  unfolding settle
  transact m db = settle (m db) db
