-- ===== src/Queue/Requests/Checks.antt =====
-- Every request keeps the attempts within the checks of their table
-- (job_attempt_state_check and its neighbours in migrations/0001_initial.sql).
use pixiv_archive.Prelude.{
  ℕ, Bool, true, false, Option, none, some, String, ◌≡◌, refl, ok, err, panicked, Outcome, arith,
}
use pixiv_archive.Job.State.{JobState}
use pixiv_archive.Job.Retry.{DbError}
use pixiv_archive.Queue.Store.{Documents, NewJob, Units, Database, Tx, Job, transact, settle}
use pixiv_archive.Queue.Transitions.{
  JobCompletion, JobRecord, TerminalStateUpdate, set_terminal_state, complete_in_tx,
  wait_for_storage, set_storage_write_allowed, fail, of_row, close_if_running, check_cancel,
  cancel_requested, retry_requested,
}
use pixiv_archive.Queue.Insertion.{enqueue_in_tx}
use pixiv_archive.Queue.Insertion.Grows.{enqueue_in_tx-Grows}
use pixiv_archive.Queue.Accounts.{
  move_jobs_to_account_wait, block_account, clear_error_class, block_account_of,
  block_account_for_job, release_account_jobs,
}
use pixiv_archive.Queue.Transitions.Requests.{Aside-of_row}
use pixiv_archive.Queue.Claiming.{
  close_lapsed, claim_job, claim_if_some, claim_in_tx, heartbeat_record, answer_heartbeat,
  heartbeat,
}
use pixiv_archive.Queue.Enqueue.{enqueue_unless, enqueue_download_if_absent_with_lease}
use pixiv_archive.Queue.Enqueue.Inserts.{lock_if_some-Aside}
use pixiv_archive.Queue.Requests.{
  Request, to_enqueue, to_enqueue_download, to_claim, to_heartbeat, to_complete,
  to_wait_for_storage, to_fail, to_block_for_job, to_block_account, to_release_account,
  to_allow_storage, to_cancel, to_retry, perform,
}
use pixiv_archive.Job.Priority.{JobPriority}
use pixiv_archive.Job.Selection.{JobQuotaSelection}
use pixiv_archive.Prelude.Int.{ℤ}
use pixiv_archive.Queue.Store.{JobLease}
use pixiv_archive.Queue.Requests.Checked.{
  KeepsChecks, Checking, checking_rules, Checking-bind, Checking-Growing, Checking-Aside,
  Checking-pure, Checking-close_attempt, Checking-throw_if,
}

module _ ⦃J : Documents⦄ ⦃U : Units⦄ where
  Checking-set_terminal_state :
      (now : ℕ) (update : TerminalStateUpdate) → Checking (set_terminal_state now update)
  unfolding set_terminal_state
  Checking-set_terminal_state now update = search checking_rules

  Checking-complete_in_tx :
      (now : ℕ) (lease : JobLease) (completion : JobCompletion)
      → Checking (complete_in_tx now lease completion)
  unfolding complete_in_tx
  Checking-complete_in_tx now lease completion =
      Checking-bind _ _ (Checking-set_terminal_state now _) (λ revision. search checking_rules)

  Checking-wait_for_storage : (now : ℕ) (lease : JobLease) → Checking (wait_for_storage now lease)
  unfolding wait_for_storage
  Checking-wait_for_storage now lease =
      Checking-bind _ _ (Checking-set_terminal_state now _) (λ revision. search checking_rules)

  Checking-fail :
      (now : ℕ) (lease : JobLease) (error_class : String) (retryable : Bool)
      (next_retry_at : Option ℕ) (message : Option String)
      → Checking (fail now lease error_class retryable next_retry_at message)
  unfolding fail
  Checking-fail now lease error_class retryable next_retry_at message =
      Checking-bind _ _ (Checking-throw_if _ _) (λ a.
        Checking-bind _ _ (Checking-set_terminal_state now _) (λ revision. search checking_rules))

  Checking-close_if_running :
      (now id : ℕ) (state : JobState) → Checking (close_if_running now id state)
  unfolding close_if_running
  Checking-close_if_running now id state = search checking_rules

  Checking-of_row : (o : Outcome DbError JobRecord) → Checking (of_row o)
  Checking-of_row o = Checking-Aside (Aside-of_row o)

  Checking-cancel_requested : (now id revision : ℕ) → Checking (cancel_requested now id revision)
  unfolding cancel_requested check_cancel
  Checking-cancel_requested now id revision =
      search (checking_rules, Checking-of_row, Checking-close_if_running) depth 16 fits 5000

  Checking-retry_requested : (now id revision : ℕ) → Checking (retry_requested now id revision)
  unfolding retry_requested
  Checking-retry_requested now id revision =
      search (checking_rules, Checking-of_row) depth 12 fits 5000

  Checking-set_storage_write_allowed :
      (now : ℕ) (allowed : Bool) → Checking (set_storage_write_allowed now allowed)
  unfolding set_storage_write_allowed
  Checking-set_storage_write_allowed now true = search checking_rules
  Checking-set_storage_write_allowed now false = search checking_rules

  Checking-close_lapsed :
      (now : ℕ) (lapsed : Bool) (id number : ℕ) → Checking (close_lapsed now lapsed id number)
  unfolding close_lapsed
  Checking-close_lapsed now true id number = Checking-close_attempt id _ _
  Checking-close_lapsed now false id number = Checking-pure tt

  Checking-claim_job :
      (now owner microseconds : ℕ) (chosen : Job)
      → Checking (claim_job now owner microseconds chosen)
  unfolding claim_job
  Checking-claim_job now owner microseconds chosen =
      search (checking_rules, Checking-close_lapsed) depth 10 fits 5000

  Checking-claim_if_some :
      (now owner microseconds : ℕ) (chosen : Option Job)
      → Checking (claim_if_some now owner microseconds chosen)
  unfolding claim_if_some
  Checking-claim_if_some now owner microseconds none = Checking-pure none
  Checking-claim_if_some now owner microseconds (some chosen) =
      Checking-claim_job now owner microseconds chosen

  Checking-claim_in_tx :
      (locked : ℕ → Bool) (now owner : ℕ) (selection : JobQuotaSelection) (duration : ℤ)
      → Checking (claim_in_tx locked now owner selection duration)
  unfolding claim_in_tx
  Checking-claim_in_tx locked now owner selection duration =
      search (checking_rules, Checking-claim_if_some)

  Checking-heartbeat_record :
      (row : Job) (expires : Option ℕ) → Checking (heartbeat_record row expires)
  unfolding heartbeat_record
  Checking-heartbeat_record row none = record { at = λ db a next h. absurd (cc) }
  Checking-heartbeat_record row (some expires) = record {
    at = λ db a next h. record {
      keeps = λ fine. let e : next.attempts ≡ db.attempts = ground arith in rw e fine;
    };
  }

  Checking-answer_heartbeat :
      (id revision owner : ℕ) (row : Option Job) → Checking (answer_heartbeat id revision owner row)
  unfolding answer_heartbeat
  Checking-answer_heartbeat id revision owner none = search checking_rules
  Checking-answer_heartbeat id revision owner (some row) =
      Checking-heartbeat_record row row.lease_expires_at

  Checking-heartbeat :
      (now id revision owner : ℕ) (extend_by : ℤ)
      → Checking (heartbeat now id revision owner extend_by)
  unfolding heartbeat
  Checking-heartbeat now id revision owner extend_by =
      search (checking_rules, Checking-answer_heartbeat)

  Checking-clear_error_class :
      (invalidated : Bool) (id : ℕ) → Checking (clear_error_class invalidated id)
  unfolding clear_error_class
  Checking-clear_error_class true id = Checking-pure tt
  Checking-clear_error_class false id = search checking_rules

  Checking-block_account_of :
      (now : ℕ) (row : Job) (account_id : ℕ) (error_class : String)
      → Checking (block_account_of now row account_id error_class)
  unfolding block_account_of move_jobs_to_account_wait
  Checking-block_account_of now row account_id error_class =
      search (checking_rules, Checking-clear_error_class)

  Checking-block_account_for_job :
      (now : ℕ) (lease : JobLease) (error_class : String) (message : Option String)
      → Checking (block_account_for_job now lease error_class message)
  unfolding block_account_for_job
  Checking-block_account_for_job now lease error_class message =
      search (checking_rules, Checking-block_account_of)

  Checking-block_account :
      (now account_id : ℕ) (error_class : String)
      → Checking (block_account now account_id error_class)
  unfolding block_account move_jobs_to_account_wait
  Checking-block_account now account_id error_class = search checking_rules

  Checking-release_account_jobs :
      (now account_id : ℕ) → Checking (release_account_jobs now account_id)
  unfolding release_account_jobs
  Checking-release_account_jobs now account_id = search checking_rules

  Checking-enqueue_in_tx : (now id : ℕ) (job : NewJob) → Checking (enqueue_in_tx now id job)
  Checking-enqueue_in_tx now id job =
      Checking-Growing (record { at = λ db a next h. enqueue_in_tx-Grows now id job a db next h })

  Checking-enqueue_unless :
      (now id account_id : ℕ) (job : NewJob) (existing : Option Job)
      → Checking (enqueue_unless now id account_id job existing)
  unfolding enqueue_unless
  Checking-enqueue_unless now id account_id job none = Checking-enqueue_in_tx now id _
  Checking-enqueue_unless now id account_id job (some existing) = Checking-pure existing.id

  Checking-enqueue_download :
      (now utc_now id : ℕ) (lease : Option JobLease) (account_id : ℕ)
      (work_id pixiv_work_id : String) (priority : JobPriority)
      → Checking (
          enqueue_download_if_absent_with_lease now utc_now id lease account_id work_id
            pixiv_work_id priority)
  unfolding enqueue_download_if_absent_with_lease
  Checking-enqueue_download now utc_now id lease account_id work_id pixiv_work_id priority =
      Checking-bind _ _ (Checking-Aside (lock_if_some-Aside now lease))
        (λ a. search (checking_rules, Checking-enqueue_unless))

  settle-KeepsChecks :
      {A : Type 0} (o : Outcome DbError (A × Database)) (db : Database)
      → ((a : A) (next : Database) → o ≡ ok (a, next) → KeepsChecks db next)
      → KeepsChecks db (settle o db).1
  unfolding settle
  settle-KeepsChecks (ok r) db step = step r.0 r.1 refl
  settle-KeepsChecks (err e) db step = record { keeps = λ fine. fine }
  settle-KeepsChecks panicked db step = record { keeps = λ fine. fine }

  transact-KeepsChecks :
      {A : Type 0} (m : Tx A) (db : Database) → Checking m → KeepsChecks db (transact m db).1
  unfolding transact
  transact-KeepsChecks m db p = settle-KeepsChecks (m db) db (p.at db)

  pub perform-KeepsChecks :
      (request : Request) (db : Database) → KeepsChecks db (perform request db)
  unfolding perform
  perform-KeepsChecks (to_enqueue now id job) db =
      transact-KeepsChecks _ db (Checking-enqueue_in_tx now id job)
  perform-KeepsChecks (to_enqueue_download now utc id lease account work pixiv priority) db =
      transact-KeepsChecks _ db
        (Checking-enqueue_download now utc id lease account work pixiv priority)
  perform-KeepsChecks (to_claim now locked owner selection duration) db =
      transact-KeepsChecks _ db (Checking-claim_in_tx locked now owner selection duration)
  perform-KeepsChecks (to_heartbeat now id revision owner extend_by) db =
      transact-KeepsChecks _ db (Checking-heartbeat now id revision owner extend_by)
  perform-KeepsChecks (to_complete now lease completion) db =
      transact-KeepsChecks _ db (Checking-complete_in_tx now lease completion)
  perform-KeepsChecks (to_wait_for_storage now lease) db =
      transact-KeepsChecks _ db (Checking-wait_for_storage now lease)
  perform-KeepsChecks (to_fail now lease error_class retryable next_retry_at message) db =
      transact-KeepsChecks _ db
        (Checking-fail now lease error_class retryable next_retry_at message)
  perform-KeepsChecks (to_block_for_job now lease error_class message) db =
      transact-KeepsChecks _ db (Checking-block_account_for_job now lease error_class message)
  perform-KeepsChecks (to_block_account now account error_class) db =
      transact-KeepsChecks _ db (Checking-block_account now account error_class)
  perform-KeepsChecks (to_release_account now account) db =
      transact-KeepsChecks _ db (Checking-release_account_jobs now account)
  perform-KeepsChecks (to_allow_storage now allowed) db =
      transact-KeepsChecks _ db (Checking-set_storage_write_allowed now allowed)
  perform-KeepsChecks (to_cancel now id revision) db =
      transact-KeepsChecks _ db (Checking-cancel_requested now id revision)
  perform-KeepsChecks (to_retry now id revision) db =
      transact-KeepsChecks _ db (Checking-retry_requested now id revision)
