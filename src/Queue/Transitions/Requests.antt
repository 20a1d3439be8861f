-- ===== src/Queue/Transitions/Requests.antt =====
-- Retrying and cancelling a job, and the gate of storage writes: each keeps the tables coherent
-- (crates/db/src/jobs/transitions.rs).
use pixiv_archive.Prelude.{
  ℕ, List, Bool, true, false, ◌&&◌, ◌==◌, ◌≡◌, refl, sym, Outcome, ok, err, panicked, and_split,
  arith, length,
}
use mathlib.Core.Path.{subst}
use pixiv_archive.Job.State.{queued, waiting_storage, failed}
use pixiv_archive.Job.Retry.{DbError}
use pixiv_archive.Queue.Store.{
  Documents, Units, Database, Job, EventPayload, job_released_from_storage_wait,
  job_waiting_storage, job_queued, ◌>>=◌, pure,
}
use pixiv_archive.Queue.Transact.{succeeded, or_throw-eq-ok}
use pixiv_archive.Queue.Table.{same_state, writes_media}
use pixiv_archive.Queue.Table.Rows.{same_state-idle}
use pixiv_archive.Queue.Transitions.{
  JobRecord, job_from_row, moved, append_events, set_storage_write_allowed, of_row, in_queued_state,
  retry_requested,
}
use pixiv_archive.Queue.Transitions.Moves.{IsMove, update_job-Advances, update_jobs-Advances}
use pixiv_archive.Queue.Coherence.{revised, Advances, Advances-trans, SameQueue-Advances}
use pixiv_archive.Queue.Coherence.Aside.{
  Aside, Aside-pure, Aside-throw, Aside-bind, Aside-append_event, Aside-append_events,
  Aside-reset_linked,
}
use pixiv_archive.Queue.Insertion.Grows.{Growing-Aside, Growing-bind, Growing-on_units}

module _ ⦃J : Documents⦄ ⦃U : Units⦄ where
  open U use {reset_linked_unit}

  pub Aside-of_row : (o : Outcome DbError JobRecord) → Aside (of_row o)
  Aside-of_row (ok job) = Aside-pure job
  Aside-of_row (err e) = Aside-throw e
  Aside-of_row panicked = record { at = λ db a next h. absurd (cc) }

  requeue-IsMove :
      (now revision : ℕ)
      → IsMove
          (λ job. job.resource_revision == revision && same_state job.state failed)
          (in_queued_state now)
  requeue-IsMove now revision = record {
    same_id = λ job. refl;
    onward = λ job h. revised (omega arith) (omega arith);
    attempts = λ job. refl;
    active = λ job h. sym (
        same_state-idle job.state failed refl
          (and_split (job.resource_revision == revision) (same_state job.state failed) h).1);
  }

  pub retry_requested-Advances :
      (now id revision : ℕ) (answer : JobRecord) (db next : Database)
      → retry_requested now id revision db ≡ ok (answer, next)
      → Advances db next
  unfolding retry_requested
  retry_requested-Advances now id revision answer db next h =
      let (o, mid, updated, rest) = succeeded _ _ h in
      let (row, mid', is, later) = succeeded _ _ rest in
      let (o_is, same) = or_throw-eq-ok _ o is in
      Advances-trans db mid next
        (update_job-Advances _ _ (requeue-IsMove now revision) id db mid o updated)
        (subst (λ tables. Advances tables next) same
          ((Growing-bind _ _ (Growing-Aside (Aside-of_row (job_from_row row))) (λ a.
              Growing-bind _ _ (Growing-Aside (Aside-reset_linked id)) (λ b.
                Growing-bind _ _ (Growing-on_units now id reset_linked_unit) (λ c. Growing-Aside (
                  Aside-bind _ _ (Aside-append_event id (job_queued a.resource_revision))
                    (λ d. Aside-pure a)))))).at
            mid' answer next later).advances)

  release-IsMove :
      (now : ℕ) → IsMove (λ (job : Job). same_state job.state waiting_storage) (moved now queued)
  release-IsMove now = record {
    same_id = λ job. refl;
    onward = λ job h. revised (omega arith) (omega arith);
    attempts = λ job. refl;
    active = λ job h. sym (same_state-idle job.state waiting_storage refl h);
  }

  hold-IsMove :
      (now : ℕ)
      → IsMove
          (λ (job : Job). writes_media job.kind && same_state job.state queued)
          (moved now waiting_storage)
  hold-IsMove now = record {
    same_id = λ job. refl;
    onward = λ job h. revised (omega arith) (omega arith);
    attempts = λ job. refl;
    active = λ job h. sym (
        same_state-idle job.state queued refl
          (and_split (writes_media job.kind) (same_state job.state queued) h).1);
  }

  announced :
      (payload : ℕ → EventPayload) (rows : List Job)
      → Aside (append_events payload rows >>= λ a. pure (length rows))
  announced payload rows =
      Aside-bind _ _ (Aside-append_events payload rows) (λ a. Aside-pure (length rows))

  pub set_storage_write_allowed-Advances :
      (now : ℕ) (allowed : Bool) (n : ℕ) (db next : Database)
      → set_storage_write_allowed now allowed db ≡ ok (n, next)
      → Advances db next
  unfolding set_storage_write_allowed
  set_storage_write_allowed-Advances now true n db next h =
      let (rows, mid, updated, later) = succeeded _ _ h in
      Advances-trans db mid next (update_jobs-Advances _ _ (release-IsMove now) db mid rows updated)
        (SameQueue-Advances ((announced job_released_from_storage_wait rows).at mid n next later))
  set_storage_write_allowed-Advances now false n db next h =
      let (rows, mid, updated, later) = succeeded _ _ h in
      Advances-trans db mid next (update_jobs-Advances _ _ (hold-IsMove now) db mid rows updated)
        (SameQueue-Advances ((announced job_waiting_storage rows).at mid n next later))
