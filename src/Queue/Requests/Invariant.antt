-- ===== src/Queue/Requests/Invariant.antt =====
-- Requests keep the tables coherent and move jobs on, in any order.
use pixiv_archive.Prelude.{All, ℕ, List, [], ◌∷◌, some, ◌≡◌, refl, Outcome, ok, err, panicked}
use pixiv_archive.Job.Retry.{DbError}
use pixiv_archive.Queue.Store.{Documents, Units, Database, Tx, Job, settle, transact}
use pixiv_archive.Queue.Table.{find_job}
use pixiv_archive.Queue.Attempts.{numbers}
use pixiv_archive.Queue.Coherence.{
  IsCoherent, Evolves, Evolves-refl, Evolves-trans, Advances, Advances-refl, Advances-given,
}
use pixiv_archive.Queue.Transitions.Ends.{
  complete-EndedLease, wait_for_storage-EndedLease, fail-EndedLease,
}
use pixiv_archive.Queue.Transitions.Requests.{
  retry_requested-Advances, set_storage_write_allowed-Advances,
}
use pixiv_archive.Queue.Transitions.Cancel.{cancel_requested-Advances}
use pixiv_archive.Queue.Claiming.Answers.{claim_in_tx-Advances, heartbeat-Advances}
use pixiv_archive.Queue.Accounts.Waits.{block_account-Advances, release_account_jobs-Advances}
use pixiv_archive.Queue.Insertion.Grows.{enqueue_in_tx-Grows}
use pixiv_archive.Queue.Enqueue.Inserts.{enqueue_download-Advances}
use pixiv_archive.Queue.Lease.{block_account_for_job-UsesLease}
use pixiv_archive.Queue.Requests.Lawful.{IsLawful, IsLawful-IsChecked, IsChecked-IsLawful}
use pixiv_archive.Queue.Requests.Checks.{perform-KeepsChecks}
use pixiv_archive.Queue.Requests.{
  Request, to_enqueue, to_enqueue_download, to_claim, to_heartbeat, to_complete,
  to_wait_for_storage, to_fail, to_block_for_job, to_block_account, to_release_account,
  to_allow_storage, to_cancel, to_retry, perform, run,
}

module _ ⦃J : Documents⦄ ⦃U : Units⦄ where
  -- An error leaves the tables as they were.
  settle-Advances :
      {A : Type 0} (o : Outcome DbError (A × Database)) (db : Database)
      → ((a : A) (next : Database) → o ≡ ok (a, next) → Advances db next)
      → Advances db (settle o db).1
  unfolding settle
  settle-Advances (ok r) db step = step r.0 r.1 refl
  settle-Advances (err e) db step = Advances-refl db
  settle-Advances panicked db step = Advances-refl db

  transact-Advances :
      {A : Type 0} (m : Tx A) (db : Database)
      → ((a : A) (next : Database) → m db ≡ ok (a, next) → Advances db next)
      → Advances db (transact m db).1
  unfolding transact
  transact-Advances m db step = settle-Advances (m db) db step

  perform-Advances : (request : Request) (db : Database) → Advances db (perform request db)
  unfolding perform
  perform-Advances (to_enqueue now id job) db =
      transact-Advances _ db (λ a next h. (enqueue_in_tx-Grows now id job a db next h).advances)
  perform-Advances (to_enqueue_download now utc id lease account work pixiv priority) db =
      transact-Advances _ db (λ a next h.
        enqueue_download-Advances now utc id lease account work pixiv priority a db next h)
  perform-Advances (to_claim now locked owner selection duration) db =
      transact-Advances _ db
        (λ a next h. claim_in_tx-Advances locked now owner selection duration a db next h)
  perform-Advances (to_heartbeat now id revision owner extend_by) db =
      transact-Advances _ db
        (λ a next h. heartbeat-Advances now id revision owner extend_by a db next h)
  perform-Advances (to_complete now lease completion) db =
      transact-Advances _ db
        (λ a next h. (complete-EndedLease now lease completion a db next h).advances)
  perform-Advances (to_wait_for_storage now lease) db =
      transact-Advances _ db
        (λ a next h. (wait_for_storage-EndedLease now lease a db next h).advances)
  perform-Advances (to_fail now lease error_class retryable next_retry_at message) db =
      transact-Advances _ db (λ a next h.
        (fail-EndedLease now lease error_class retryable next_retry_at message a db next
          h).advances)
  perform-Advances (to_block_for_job now lease error_class message) db =
      transact-Advances _ db (λ a next h. Advances-given db next (λ coherent.
        (block_account_for_job-UsesLease now lease error_class message a db next h coherent).1))
  perform-Advances (to_block_account now account error_class) db =
      transact-Advances _ db
        (λ a next h. block_account-Advances now account error_class a db next h)
  perform-Advances (to_release_account now account) db =
      transact-Advances _ db (λ a next h. release_account_jobs-Advances now account a db next h)
  perform-Advances (to_allow_storage now allowed) db =
      transact-Advances _ db
        (λ a next h. set_storage_write_allowed-Advances now allowed a db next h)
  perform-Advances (to_cancel now id revision) db =
      transact-Advances _ db (λ a next h. cancel_requested-Advances now id revision a db next h)
  perform-Advances (to_retry now id revision) db =
      transact-Advances _ db (λ a next h. retry_requested-Advances now id revision a db next h)

  absent : (id : ℕ) (job : Job) → find_job id [] ≡ some job → ⊥
  unfolding find_job
  absent id job h = cc

  -- Tables without jobs and attempts are coherent.
  pub empty-IsCoherent : (db : Database) → db.jobs ≡ [] → db.attempts ≡ [] → IsCoherent db
  unfolding numbers
  empty-IsCoherent db none_queued none_tried = record {
    keyed = rw none_queued tt;
    tracked = λ id job at. absurd (absent id job (rw none_queued at at));
    legal = λ id job at. absurd (absent id job (rw none_queued at at));
    untried = λ id at. rw none_tried refl;
  }

  pub run-IsCoherent :
      (requests : List Request) (db : Database) → IsCoherent db → IsCoherent (run requests db)
  unfolding run
  run-IsCoherent [] db h = h
  run-IsCoherent (request ∷ rest) db h =
      run-IsCoherent rest (perform request db) ((perform-Advances request db).coherent h)

  -- The tables are coherent, and the attempts are what the checks of their table ask for.
  pub record IsSound (db : Database) : Type 0 where
    pub coherent : IsCoherent db
    pub lawful : All IsLawful db.attempts

  -- From sound tables any sequence of the requests of `Request`, whether they succeed or fail, leads
  -- to sound tables: identifiers of jobs are unique; every job passes the checks of its table, and its
  -- numbers are in range; every attempt is in a state other than queued and waiting for an account,
  -- has an end, not before its beginning, exactly if it does not run, and a positive number; the
  -- attempts at a job are numbered between 1
  -- and its count of attempts, and there are none at a job that is not there; and exactly one of them,
  -- the one with that count as its number, runs while the job is running, and none while it is not.
  pub run-IsSound :
      (requests : List Request) (db : Database) → IsSound db → IsSound (run requests db)
  unfolding run
  run-IsSound [] db h = h
  run-IsSound (request ∷ rest) db h = run-IsSound rest (perform request db) (record {
    coherent = (perform-Advances request db).coherent h.coherent;
    lawful =
        IsChecked-IsLawful (perform request db).attempts
          ((perform-KeepsChecks request db).keeps (IsLawful-IsChecked db.attempts h.lawful));
  })

  -- From coherent tables no sequence of the requests of `Request` loses a job or takes back its
  -- revision or its count of attempts; and while the revision stays the same, so do state, attempts and lease owner.
  pub run-Evolves :
      (requests : List Request) (db : Database) → IsCoherent db → Evolves db (run requests db)
  unfolding run
  run-Evolves [] db h = Evolves-refl db
  run-Evolves (request ∷ rest) db h =
      Evolves-trans db (perform request db) (run rest (perform request db))
        ((perform-Advances request db).evolves h)
        (run-Evolves rest (perform request db) ((perform-Advances request db).coherent h))
