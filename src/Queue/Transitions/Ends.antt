-- ===== src/Queue/Transitions/Ends.antt =====
-- The transitions that end the attempt of the job's lease: completion, failure and waiting for
-- storage (crates/db/src/jobs/transitions.rs).
use pixiv_archive.Prelude.{
  ℕ, Bool, true, false, ◌&&◌, Option, some, String, ◌==◌, ◌≡◌, refl, sym, ◌∙◌, ok, and_split, arith,
}
use mathlib.Core.Path.{subst}
use pixiv_archive.Job.State.{running, completed, waiting_storage}
use pixiv_archive.Queue.Store.{
  Documents, Units, Database, Tx, Job, JobLease, job_completed, job_waiting_storage, job_failed,
  ◌>>=◌,
}
use pixiv_archive.Queue.Transact.{succeeded, pure-eq-ok, or_throw-eq-ok, throw_if-eq-ok}
use pixiv_archive.Queue.Table.{same_state, is_running, is_number, is_later, find_job}
use pixiv_archive.Queue.Table.Rows.{Wrote, update_job-eq-ok, find-replace_self, same_state_running}
use pixiv_archive.Queue.Attempts.{
  Ending, ended, is_open, count_where, end_where, close_running_attempt,
}
use pixiv_archive.Queue.Attempts.Numbers.{Ends}
use pixiv_archive.Queue.Attempts.Effects.{close_running_attempt-eq-ok}
use pixiv_archive.Queue.Transitions.{
  TerminalStateUpdate, holds_lease, in_terminal_state, set_terminal_state, JobCompletion,
  without_error, complete_in_tx, wait_for_storage, fail, in_failure,
}
use pixiv_archive.Queue.Coherence.{revised, Advances, Advances-trans}
use pixiv_archive.Queue.Coherence.Shapes.{release_Advances, written_id}
use pixiv_archive.Queue.Coherence.Aside.{Aside-pure, Aside-append_event}
use pixiv_archive.Queue.Insertion.Grows.{
  Growing, Growing-Aside, Growing-if, Growing-bind, Growing-complete_linked, Growing-fail_linked,
}

pub ended-Ends :
    (ending : Ending) (now : ℕ) → is_running ending.state ≡ false → Ends (ended ending now)
ended-Ends ending now idle = record {
  job_id = λ attempt. refl;
  number = λ attempt. refl;
  closed = λ attempt. idle;
}

module _ ⦃J : Documents⦄ where
  pub holds_lease_parts :
      (now : ℕ) (lease : JobLease) (job : Job)
      → holds_lease now lease job ≡ true
      → ((job.resource_revision == lease.resource_revision) ≡ true)
        × (is_number job.lease_owner lease.lease_owner ≡ true)
        × (is_later job.lease_expires_at now ≡ true)
        × (same_state job.state running ≡ true)
  unfolding holds_lease
  holds_lease_parts now lease job h =
      let (revision, rest) =
        and_split (job.resource_revision == lease.resource_revision)
          (is_number job.lease_owner lease.lease_owner
            && (is_later job.lease_expires_at now && same_state job.state running))
          h in
      let (owner, rest') =
        and_split (is_number job.lease_owner lease.lease_owner)
          (is_later job.lease_expires_at now && same_state job.state running) rest in
      let (later, state) =
        and_split (is_later job.lease_expires_at now) (same_state job.state running) rest' in
      (revision, owner, later, state)

  -- A job under a lease is running.
  pub holds_lease-running :
      (now : ℕ) (lease : JobLease) (job : Job)
      → holds_lease now lease job ≡ true
      → is_running job.state ≡ true
  holds_lease-running now lease job h =
      let (revision, owner, later, state) = holds_lease_parts now lease job h in
      sym (same_state_running job.state) ∙ state

module _ ⦃J : Documents⦄ ⦃U : Units⦄ where
  -- The job was running under the lease, and its row has been put into the new state.
  pub record EndedLease (now : ℕ) (update : TerminalStateUpdate) (db next : Database) : Type 0 where
    pub old : Job
    pub found : find_job update.lease.job_id db.jobs ≡ some old
    pub held : holds_lease now update.lease old ≡ true
    pub after : find_job update.lease.job_id next.jobs ≡ some (in_terminal_state now update old)
    pub advances : Advances db next

  abbrev ending_of : TerminalStateUpdate → Ending
  ending_of update = record {
    state = update.state;
    error_class = update.error_class;
    retryable = update.retryable;
    message = update.message;
  }

  terminated :
      (now : ℕ) (update : TerminalStateUpdate) (written : Job) (n : ℕ) (db mid next : Database)
      → is_running update.state ≡ false
      → Wrote update.lease.job_id
          (holds_lease now update.lease)
          (in_terminal_state now update)
          db
          written
          mid
      → count_where (is_open update.lease.job_id n) mid.attempts ≡ 1
      → next ≡ record mid {
        attempts =
            end_where (is_open update.lease.job_id n) (ended (ending_of update) now) mid.attempts;
      }
      → EndedLease now update db next
  terminated now update written n db mid next idle w one after =
      let is : written ≡ in_terminal_state now update w.old = w.is_change in
      let id : written.id ≡ update.lease.job_id = written_id _ _ _ db written mid (λ job. refl) w in
      record {
        old = w.old;
        found = w.found;
        held = w.tested;
        after =
            rw (after, w.after, ← id, ← is)
              (find-replace_self written w.old db.jobs (rw id w.found));
        advances =
            release_Advances _ _ _ db written mid (λ job. refl) w n (ended (ending_of update) now)
              next (ended-Ends (ending_of update) now idle)
              (holds_lease-running now update.lease w.old w.tested) (rw is idle)
              (revised (rw is (omega arith)) (rw is (omega arith))) (rw is refl) one after;
      }

  set_terminal_state-EndedLease :
      (now : ℕ) (update : TerminalStateUpdate) (revision : ℕ) (db next : Database)
      → is_running update.state ≡ false
      → set_terminal_state now update db ≡ ok (revision, next)
      → EndedLease now update db next
  unfolding set_terminal_state
  set_terminal_state-EndedLease now update revision db next idle h =
      let (row, mid, updated, rest) = succeeded _ _ h in
      let (written, mid', is, rest') = succeeded _ _ rest in
      let (row_is, same) = or_throw-eq-ok _ row is in
      let (a, last, closed, answered) = succeeded _ _ rest' in
      let w =
        update_job-eq-ok update.lease.job_id (holds_lease now update.lease)
          (in_terminal_state now update) db mid written (rw row_is at updated) in
      let (n, one, after) =
        close_running_attempt-eq-ok now update.lease.job_id (ending_of update) a mid last (
          subst
            (λ tables.
              close_running_attempt now update.lease.job_id (ending_of update) tables
              ≡ ok (a, last))
            same closed) in
      let end : last ≡ next = (pure-eq-ok _ _ answered).1 in
      terminated now update written n db mid next idle w one (sym end ∙ after)

  -- What follows the end of the lease leaves the jobs as they are, but for new ones.
  pub then_Growing :
      {A : Type 0} (now : ℕ) (update : TerminalStateUpdate) (rest : ℕ → Tx A) (a : A)
      (db next : Database)
      → is_running update.state ≡ false
      → ((revision : ℕ) → Growing (rest revision))
      → (set_terminal_state now update >>= rest) db ≡ ok (a, next)
      → EndedLease now update db next
  then_Growing now update rest a db next idle growing h =
      let (revision, mid, ended_at, later) = succeeded _ _ h in
      let e = set_terminal_state-EndedLease now update revision db mid idle ended_at in
      let grows = (growing revision).at mid a next later in
      record {
        old = e.old;
        found = e.found;
        held = e.held;
        after = grows.kept update.lease.job_id _ e.after;
        advances = Advances-trans db mid next e.advances grows.advances;
      }

  pub complete-EndedLease :
      (now : ℕ) (lease : JobLease) (completion : JobCompletion) (a : Unit {0}) (db next : Database)
      → complete_in_tx now lease completion db ≡ ok (a, next)
      → EndedLease now (without_error lease completed) db next
  unfolding complete_in_tx
  complete-EndedLease now lease completion a db next h =
      then_Growing now (without_error lease completed) _ a db next refl
        (λ revision.
          Growing-bind _ _ (Growing-complete_linked now lease.job_id completion)
            (λ b. Growing-Aside (Aside-append_event lease.job_id (job_completed revision))))
        h

  pub wait_for_storage-EndedLease :
      (now : ℕ) (lease : JobLease) (a : Unit {0}) (db next : Database)
      → wait_for_storage now lease db ≡ ok (a, next)
      → EndedLease now (without_error lease waiting_storage) db next
  unfolding wait_for_storage
  wait_for_storage-EndedLease now lease a db next h =
      then_Growing now (without_error lease waiting_storage) _ a db next refl
        (λ revision. Growing-Aside (Aside-append_event lease.job_id (job_waiting_storage revision)))
        h

  pub fail-EndedLease :
      (now : ℕ) (lease : JobLease) (error_class : String) (retryable : Bool)
      (next_retry_at : Option ℕ) (message : Option String) (a : Unit {0}) (db next : Database)
      → fail now lease error_class retryable next_retry_at message db ≡ ok (a, next)
      → EndedLease now (in_failure lease error_class retryable next_retry_at message) db next
  unfolding fail
  fail-EndedLease now lease error_class retryable next_retry_at message a db next h =
      let (b, mid, checked, later) = succeeded _ _ h in
      let (fine, same) = throw_if-eq-ok _ _ checked in
      then_Growing now (in_failure lease error_class retryable next_retry_at message) _ a db next
        refl
        (λ revision.
          Growing-bind _ _
            (Growing-if retryable _ _ (Growing-Aside (Aside-pure tt))
              (Growing-fail_linked now lease.job_id error_class message))
            (λ c. Growing-Aside (Aside-append_event lease.job_id (job_failed revision))))
        (rw same at later)
