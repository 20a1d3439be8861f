-- ===== src/Queue/Accounts/Waits.antt =====
-- The waits for an account keep the tables coherent (crates/db/src/jobs/account_wait.rs).
use pixiv_archive.Prelude.{
  ℕ, List, ◌∷◌, Bool, true, false, ◌&&◌, Option, none, some, String, ◌≡◌, refl, sym, ok, and_split,
  arith,
}
use mathlib.Core.Path.{subst}
use pixiv_archive.Job.State.{queued, waiting_account}
use pixiv_archive.Job.Retry.{DbError}
use pixiv_archive.Queue.Store
use pixiv_archive.Queue.Store.{
  Documents, Units, Database, Tx, Job, JobLease, job_waiting_account,
  job_released_from_account_wait, ◌>>=◌, pure, gets, or_throw, append_event,
}
use pixiv_archive.Queue.Transact.{succeeded, pure-eq-ok}
use pixiv_archive.Queue.Table.{same_state, is_running, is_number}
use pixiv_archive.Queue.Table.Rows.{same_state-idle}
use pixiv_archive.Queue.Transitions.{moved}
use pixiv_archive.Queue.Transitions.Moves.{IsMove, update_job-Advances, update_jobs-Advances}
use pixiv_archive.Queue.Coherence.{
  revised, untouched, Advances, Advances-refl, Advances-trans, SameQueue-Advances,
}
use pixiv_archive.Queue.Coherence.Aside.{
  Aside, Aside-pure, Aside-bind, Aside-append_event, Aside-append_events, Aside-gets, Aside-throw,
  Aside-if,
}
use pixiv_archive.Queue.Accounts.{
  can_wait, in_account_wait, without_error_class, write_account, invalidate_account,
  set_account_credential_invalid, move_jobs_to_account_wait, block_account, clear_error_class,
  block_account_of, release_account_jobs,
}

module _ ⦃J : Documents⦄ where
  can_wait-idle :
      (account_id : ℕ) (job : Job) → can_wait account_id job ≡ true → is_running job.state ≡ false
  unfolding can_wait same_state
  can_wait-idle account_id job h = ground arith

module _ ⦃J : Documents⦄ ⦃U : Units⦄ where
  Aside-write_account : (account : Store.Account) → Aside (write_account account)
  unfolding write_account
  Aside-write_account account = record {
    at = λ db a next h. record { jobs = ground arith; attempts = ground arith };
  }

  Aside-invalidate :
      (now : ℕ) (account : Option Store.Account) → Aside (invalidate_account now account)
  unfolding invalidate_account
  Aside-invalidate now none = Aside-throw DbError.not_found
  Aside-invalidate now (some account) = Aside-if _ _ _ (Aside-pure false) (
      Aside-bind _ _ (Aside-write_account _)
        (λ a. Aside-bind _ _ (Aside-append_event account.id _) (λ b. Aside-pure true)))

  pub Aside-set_account :
      (now account_id : ℕ) → Aside (set_account_credential_invalid now account_id)
  unfolding set_account_credential_invalid
  Aside-set_account now account_id =
      Aside-bind _ _ (Aside-gets _) (λ account. Aside-invalidate now account)

  -- The jobs that can wait do not run.
  wait-IsMove :
      (now account_id : ℕ) (error_class : Option String)
      → IsMove (can_wait account_id) (in_account_wait now error_class)
  wait-IsMove now account_id error_class = record {
    same_id = λ job. refl;
    onward = λ job h. revised (omega arith) (omega arith);
    attempts = λ job. refl;
    active = λ job h. sym (can_wait-idle account_id job h);
  }

  move_jobs-Advances :
      (now account_id : ℕ) (error_class : Option String) (rows : List Job) (db next : Database)
      → move_jobs_to_account_wait now account_id error_class db ≡ ok (rows, next)
      → Advances db next
  unfolding move_jobs_to_account_wait
  move_jobs-Advances now account_id error_class rows db next h =
      update_jobs-Advances _ _ (wait-IsMove now account_id error_class) db next rows h

  pub block_account-Advances :
      (now account_id : ℕ) (error_class : String) (a : Unit {0}) (db next : Database)
      → block_account now account_id error_class db ≡ ok (a, next)
      → Advances db next
  unfolding block_account
  block_account-Advances now account_id error_class a db next h =
      let (invalidated, db1, set, h1) = succeeded _ _ h in
      let (rows, db2, moved_all, h2) = succeeded _ _ h1 in
      Advances-trans db db1 next
        (SameQueue-Advances ((Aside-set_account now account_id).at db invalidated db1 set))
        (Advances-trans db1 db2 next (move_jobs-Advances now account_id _ rows db1 db2 moved_all)
          (SameQueue-Advances ((Aside-append_events job_waiting_account rows).at db2 a next h2)))

  clear-IsMove : IsMove (λ (job : Job). true) without_error_class
  clear-IsMove = record {
    same_id = λ job. refl;
    onward = λ job h. untouched refl refl refl refl;
    attempts = λ job. refl;
    active = λ job h. refl;
  }

  clear-Advances :
      (invalidated : Bool) (id : ℕ) (a : Unit {0}) (db next : Database)
      → clear_error_class invalidated id db ≡ ok (a, next)
      → Advances db next
  unfolding clear_error_class
  clear-Advances true id a db next h = rw (sym (pure-eq-ok tt a h).1) (Advances-refl db)
  clear-Advances false id a db next h =
      let (row, mid, cleared, answered) = succeeded _ _ h in
      subst (λ tables. Advances db tables) (pure-eq-ok tt a answered).1
        (update_job-Advances _ _ clear-IsMove id db mid row cleared)

  pub block_account_of-Advances :
      (now : ℕ) (row : Job) (account_id : ℕ) (error_class : String) (a : Unit {0})
      (db next : Database)
      → block_account_of now row account_id error_class db ≡ ok (a, next)
      → Advances db next
  unfolding block_account_of
  block_account_of-Advances now row account_id error_class a db next h =
      let (invalidated, db1, set, h1) = succeeded _ _ h in
      let (b, db2, cleared, h2) = succeeded _ _ h1 in
      let (rows, db3, moved_all, h3) = succeeded _ _ h2 in
      Advances-trans db db1 next
        (SameQueue-Advances ((Aside-set_account now account_id).at db invalidated db1 set))
        (Advances-trans db1 db2 next (clear-Advances invalidated row.id b db1 db2 cleared) (
          Advances-trans db2 db3 next (move_jobs-Advances now account_id _ rows db2 db3 moved_all) (
            SameQueue-Advances
              ((Aside-append_events job_waiting_account (row ∷ rows)).at db3 a next h3))))

  release-IsMove :
      (now account_id : ℕ)
      → IsMove
          (λ (job : Job).
            is_number job.pixiv_account_id account_id && same_state job.state waiting_account)
          (moved now queued)
  release-IsMove now account_id = record {
    same_id = λ job. refl;
    onward = λ job h. revised (omega arith) (omega arith);
    attempts = λ job. refl;
    active = λ job h. sym (
        same_state-idle job.state waiting_account refl
          (and_split (is_number job.pixiv_account_id account_id)
            (same_state job.state waiting_account) h).1);
  }

  pub release_account_jobs-Advances :
      (now account_id : ℕ) (a : Unit {0}) (db next : Database)
      → release_account_jobs now account_id db ≡ ok (a, next)
      → Advances db next
  unfolding release_account_jobs
  release_account_jobs-Advances now account_id a db next h =
      let (rows, mid, released, told) = succeeded _ _ h in
      Advances-trans db mid next
        (update_jobs-Advances _ _ (release-IsMove now account_id) db mid rows released)
        (SameQueue-Advances
          ((Aside-append_events job_released_from_account_wait rows).at mid a next told))
