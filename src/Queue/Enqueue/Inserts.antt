-- ===== src/Queue/Enqueue/Inserts.antt =====
-- A new job keeps the tables coherent (crates/db/src/jobs/enqueue.rs).
use pixiv_archive.Prelude.{ℕ, Option, none, some, String, ◌≡◌, sym, ok}
use mathlib.Core.Path.{subst}
use pixiv_archive.Job.Priority.{JobPriority}
use pixiv_archive.Job.Retry.{DbError}
use pixiv_archive.Queue.Store.{Documents, Units, NewJob, Database, Job, JobLease}
use pixiv_archive.Queue.Transact.{succeeded, pure-eq-ok, gets-eq-ok}
use pixiv_archive.Queue.Transitions.{lock_active_lease_in_tx}
use pixiv_archive.Queue.Coherence.{Advances, Advances-refl, Advances-trans, SameQueue-Advances}
use pixiv_archive.Queue.Coherence.Aside.{
  Aside, Aside-pure, Aside-bind, Aside-gets, Aside-or_throw, Aside-throw_if,
}
use pixiv_archive.Queue.Insertion.Grows.{enqueue_in_tx-Grows}
use pixiv_archive.Queue.Enqueue.{
  lock_if_some, enqueue_unless, enqueue_download_if_absent_with_lease,
}

module _ ⦃J : Documents⦄ ⦃U : Units⦄ where
  open J use {object}

  pub lock_if_some-Aside : (now : ℕ) (lease : Option JobLease) → Aside (lock_if_some now lease)
  unfolding lock_active_lease_in_tx
  lock_if_some-Aside now none = Aside-pure tt
  lock_if_some-Aside now (some lease) = Aside-bind _ _ (Aside-gets _) (λ row.
      Aside-bind _ _ (Aside-or_throw DbError.lease_conflict row) (λ job. Aside-throw_if _ _))

  enqueue_unless-Advances :
      (now id account_id : ℕ) (job : NewJob) (existing : Option Job) (answer : ℕ)
      (db next : Database)
      → enqueue_unless now id account_id job existing db ≡ ok (answer, next)
      → Advances db next
  unfolding enqueue_unless
  enqueue_unless-Advances now id account_id job (some existing) answer db next h =
      rw (sym (pure-eq-ok existing.id answer h).1) (Advances-refl db)
  enqueue_unless-Advances now id account_id job none answer db next h =
      (enqueue_in_tx-Grows now id _ answer db next h).advances

  pub enqueue_download-Advances :
      (now utc_now id : ℕ) (lease : Option JobLease) (account_id : ℕ)
      (work_id pixiv_work_id : String) (priority : JobPriority) (answer : ℕ) (db next : Database)
      → enqueue_download_if_absent_with_lease now utc_now id lease account_id work_id pixiv_work_id
          priority db
        ≡ ok (answer, next)
      → Advances db next
  unfolding enqueue_download_if_absent_with_lease
  enqueue_download-Advances now utc_now id lease account_id work_id pixiv_work_id priority answer db
        next h =
      let (a, db1, locked, h1) = succeeded _ _ h in
      let (existing, db2, looked, h2) = succeeded _ _ h1 in
      let (is, same) = gets-eq-ok _ looked in
      Advances-trans db db1 next
        (SameQueue-Advances ((lock_if_some-Aside now lease).at db a db1 locked))
        (subst (λ tables. Advances tables next) (sym same)
          (enqueue_unless-Advances now id account_id _ existing answer db2 next h2))
