-- ===== src/Queue/Lease.antt =====
-- What the writes that need a lease have in common: completion, failure, waiting for storage
-- (crates/db/src/jobs/transitions.rs) and the block of an account (account_wait.rs).
pub mod Fence
pub mod Live
pub mod Status
use pixiv_archive.Prelude.{
  ℕ, ◌+◌, ◌<◌, ◌≤◌, Bool, true, false, not, ◌&&◌, Option, none, some, String, is_some, ◌≡◌, refl,
  sym, ap, ◌∙◌, ok, and_split, arith,
}
use mathlib.Core.Path.{subst}
use pixiv_archive.Job.State.{JobState, running, failed}
use pixiv_archive.Job.Retry.{DbError}
use pixiv_archive.Queue.Store.{Documents, Units, Database, Tx, Job, JobLease, ◌>>=◌, pure, or_throw}
use pixiv_archive.Queue.Transact.{succeeded, or_throw-eq-ok}
use pixiv_archive.Queue.Table.{is_running, find_job, update_job}
use pixiv_archive.Queue.Table.Rows.{Wrote, update_job-eq-ok, find-replace_self}
use pixiv_archive.Queue.Attempts.{
  Ending, ended, is_open, count_where, end_where, close_running_attempt,
}
use pixiv_archive.Queue.Attempts.Effects.{close_running_attempt-eq-ok}
use pixiv_archive.Queue.Transitions.{TerminalStateUpdate, holds_lease}
use pixiv_archive.Queue.Transitions.Ends.{EndedLease, ended-Ends, holds_lease-running}
use pixiv_archive.Queue.Accounts.{blocked, block_account_of, block_account_for_job}
use pixiv_archive.Queue.Accounts.Waits.{block_account_of-Advances}
use pixiv_archive.Queue.Coherence.{
  IsCoherent, Onward, revised, untouched, Advances, Advances-given, Advances-trans,
}
use pixiv_archive.Queue.Coherence.Shapes.{release_Advances, written_id}

module _ ⦃J : Documents⦄ ⦃U : Units⦄ where
  -- The job was running under the lease, and has a larger revision now.
  pub record UsesLease (now : ℕ) (lease : JobLease) (db next : Database) : Type 0 where
    pub old : Job
    pub found : find_job lease.job_id db.jobs ≡ some old
    pub held : holds_lease now lease old ≡ true
    pub written : Job
    pub after : find_job lease.job_id next.jobs ≡ some written
    pub larger : old.resource_revision < written.resource_revision

  pub EndedLease-UsesLease :
      (now : ℕ) (update : TerminalStateUpdate) (db next : Database)
      → EndedLease now update db next
      → UsesLease now update.lease db next
  EndedLease-UsesLease now update db next e = record {
    old = e.old;
    found = e.found;
    held = e.held;
    written = _;
    after = e.after;
    larger = omega arith;
  }

  Onward-larger :
      (n : ℕ) (job later : Job)
      → n < job.resource_revision
      → Onward job later
      → n < later.resource_revision
  Onward-larger n job later h (revised r a) = omega arith
  Onward-larger n job later h (untouched e f s o) = omega arith

  blocked-Advances :
      (now : ℕ) (lease : JobLease) (error_class : String) (ending : Ending) (n : ℕ) (row : Job)
      (db mid next : Database)
      (w : Wrote lease.job_id
        (λ job. holds_lease now lease job && is_some job.pixiv_account_id)
        (blocked now error_class)
        db
        row
        mid)
      → is_running ending.state ≡ false
      → count_where (is_open lease.job_id n) mid.attempts ≡ 1
      → next ≡ record mid {
        attempts = end_where (is_open lease.job_id n) (ended ending now) mid.attempts;
      }
      → UsesLease now lease db next × Advances db next
  blocked-Advances now lease error_class ending n row db mid next w idle one after =
      let id = written_id _ _ _ db row mid (λ job. refl) w in
      let held =
        (and_split (holds_lease now lease w.old) (is_some w.old.pixiv_account_id) w.tested).0 in
      (
        record {
          old = w.old;
          found = w.found;
          held = held;
          written = row;
          after = rw (after, w.after, ← id) (find-replace_self row w.old db.jobs (rw id w.found));
          larger = rw w.is_change (omega arith);
        },
        release_Advances _ _ _ db row mid (λ job. refl) w n (ended ending now) next
            (ended-Ends ending now idle) (holds_lease-running now lease w.old held)
            (rw w.is_change refl) (rw w.is_change (revised (omega arith) (omega arith)))
            (rw w.is_change refl) one after,
      )

  pub block_account_for_job-UsesLease :
      (now : ℕ) (lease : JobLease) (error_class : String) (message : Option String) (a : Unit {0})
      (db next : Database)
      → block_account_for_job now lease error_class message db ≡ ok (a, next)
      → IsCoherent db
      → UsesLease now lease db next × Advances db next
  unfolding block_account_for_job
  block_account_for_job-UsesLease now lease error_class message a db next h coherent =
      let (updated, mid, wrote, h1) = succeeded _ _ h in
      let (row, mid1, is, h2) = succeeded _ _ h1 in
      let (updated_is, same1) = or_throw-eq-ok _ updated is in
      let (account_id, mid2, owner, h3) = succeeded _ _ h2 in
      let (owner_is, same2) = or_throw-eq-ok _ _ owner in
      let (b, released, closed, h4) = succeeded _ _ h3 in
      let w =
        update_job-eq-ok lease.job_id _ (blocked now error_class) db mid row
          (rw updated_is at wrote) in
      let ending : Ending = record {
        state = failed;
        error_class = some error_class;
        retryable = none;
        message = message;
      } in
      let (n, one, after) = close_running_attempt-eq-ok now lease.job_id ending b mid released (
        subst (λ tables. close_running_attempt now lease.job_id ending tables ≡ ok (b, released))
          (same2 ∙ same1) closed) in
      let (uses, first) =
        blocked-Advances now lease error_class ending n row db mid released w refl one after in
      let rest = block_account_of-Advances now row account_id error_class a released next h4 in
      let (later, there, moved) =
        (rest.evolves (first.coherent coherent)).onward lease.job_id uses.written uses.after in
      (
        record {
          old = uses.old;
          found = uses.found;
          held = uses.held;
          written = later;
          after = there;
          larger = Onward-larger uses.old.resource_revision uses.written later uses.larger moved;
        },
        Advances-trans db released next first rest,
      )
