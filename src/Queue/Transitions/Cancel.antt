-- ===== src/Queue/Transitions/Cancel.antt =====
-- The cancellation of a job, which ends its attempt if it is running
-- (crates/db/src/jobs/transitions.rs).
use pixiv_archive.Prelude.{
  ℕ, ◌==◌, ==_iff, Bool, true, false, not, ◌||◌, some, ◌≡◌, refl, sym, ap, ◌∙◌, ok, inl, inr,
  Bool-cases, arith,
}
use mathlib.Core.Path.{subst}
use pixiv_archive.Job.State.{JobState, running}
use pixiv_archive.Queue.Store.{
  Documents, Units, Database, Job, job_cancelled, ◌>>=◌, ◌>>◌, pure, append_event,
}
use pixiv_archive.Queue.Transact.{succeeded, pure-eq-ok, gets-eq-ok, or_throw-eq-ok, throw_if-eq-ok}
use pixiv_archive.Queue.Table.{same_state, find_job, replace_job, update_job}
use pixiv_archive.Queue.Table.Rows.{Wrote, find-replace_self, update_job-eq-ok, same_state_running}
use pixiv_archive.Queue.Attempts.Effects.{close_running_attempt-eq-ok}
use pixiv_archive.Queue.Transitions.{
  check_cancel, can_cancel, is_irreversible, purged_work, JobRecord, job_from_row,
  in_cancelled_state, close_if_running, cancel_requested, of_row,
}
use pixiv_archive.Queue.Linked.{cancel_linked_import_run}
use pixiv_archive.Queue.Transitions.Ends.{ended-Ends}
use pixiv_archive.Queue.Transitions.Requests.{Aside-of_row}
use pixiv_archive.Queue.Coherence.{revised, Advances, Advances-trans, SameQueue, SameQueue-Advances}
use pixiv_archive.Queue.Coherence.Shapes.{write_Advances, release_Advances, written_id}
use pixiv_archive.Queue.Insertion.{on_units}
use pixiv_archive.Queue.Insertion.Grows.{Growing, Growing-Aside, Growing-bind, Growing-on_units}
use pixiv_archive.Queue.Coherence.Aside.{
  Aside-pure, Aside-bind, Aside-append_event, Aside-cancel_linked, Aside-update_intents,
}

both_hold : (a b : Bool) → (not a || not b) ≡ false → (a ≡ true) × (b ≡ true)
both_hold a b h = ground arith

module _ ⦃J : Documents⦄ ⦃U : Units⦄ where
  open U use {cancel_linked_unit}

  some_injective : {a b : Job} → some a ≡ some b → a ≡ b
  some_injective h = cc

  -- The row is cancelled, and its attempt is closed if it was running.
  close_cancelled :
      (now id : ℕ) (state : JobState) (a : Unit {0}) (db mid next : Database) (row : Job)
      (w : Wrote id (λ (job : Job). true) (in_cancelled_state now) db row mid)
      → w.old.state ≡ state
      → close_if_running now id state mid ≡ ok (a, next)
      → Advances db next
  unfolding close_if_running
  close_cancelled now id state a db mid next row w is h =
      elim (Bool-cases (same_state state running)) [
        | inl active ↦
            let (n, one, after) =
              close_running_attempt-eq-ok now id _ a mid next (rw active at h) in
            release_Advances id _ _ db row mid (λ job. refl) w n _ next (ended-Ends _ now refl)
              (rw is (sym (same_state_running state) ∙ active)) (rw w.is_change refl)
              (rw w.is_change (revised (omega arith) (omega arith))) (rw w.is_change refl) one after
        | inr idle ↦
            let end : mid ≡ next = (pure-eq-ok {A = Unit {0}} tt a (rw idle at h)).1 in
            rw (← end) (
              write_Advances id _ _ db row mid (λ job. refl) w
                (rw w.is_change (revised (omega arith) (omega arith))) (rw w.is_change refl)
                (rw (w.is_change, is) (sym (sym (same_state_running state) ∙ idle))))
      ]

  cancelled_tail :
      (now id : ℕ) (row : Job)
      → Growing (do
        cancel_linked_import_run now id
        on_units now id cancel_linked_unit
        answer ← of_row (job_from_row row)
        append_event id (job_cancelled answer.resource_revision)
        pure answer)
  cancelled_tail now id row = Growing-bind _ _ (Growing-Aside (Aside-cancel_linked now id)) (λ a.
      Growing-bind _ _ (Growing-on_units now id cancel_linked_unit) (λ b. Growing-Aside (
        Aside-bind _ _ (Aside-of_row (job_from_row row)) (λ answer.
          Aside-bind _ _ (Aside-append_event id (job_cancelled answer.resource_revision))
            (λ c. Aside-pure answer)))))

  check_cancel-eq-ok :
      (id revision : ℕ) (current : Job) (db next : Database)
      → check_cancel id revision db ≡ ok (current, next)
      → (find_job id db.jobs ≡ some current)
        × (current.resource_revision ≡ revision)
        × (can_cancel current.state ≡ true)
        × (is_irreversible (purged_work (some current)) db.trash ≡ false)
        × (next ≡ db)
  unfolding check_cancel
  check_cancel-eq-ok id revision current db next h =
      let (found, db1, got, h1) = succeeded _ _ h in
      let (found_is, same1) = gets-eq-ok _ got in
      let (job, db2, some_row, h2) = succeeded _ _ h1 in
      let (row_is, same2) = or_throw-eq-ok _ found some_row in
      let (b, db3, checked, h3) = succeeded _ _ h2 in
      let (fine, same3) = throw_if-eq-ok _ _ checked in
      let (irreversible, db4, asked, h4) = succeeded _ _ h3 in
      let (known, same4) = gets-eq-ok _ asked in
      let (c, db5, let_on, h5) = succeeded _ _ h4 in
      let (reversible, same5) = throw_if-eq-ok irreversible _ let_on in
      let (is, end) = pure-eq-ok job current h5 in
      let here : db3 ≡ db = same3 ∙ (same2 ∙ sym same1) in
      let at : find_job id db.jobs ≡ some job = found_is ∙ row_is in
      let (matches, allowed) =
        both_hold (job.resource_revision == revision) (can_cancel job.state) fine in
      let free : is_irreversible (purged_work (find_job id db.jobs)) db.trash ≡ false =
        subst
          (λ (tables : Database).
            is_irreversible (purged_work (find_job id tables.jobs)) tables.trash ≡ false)
          here (known ∙ reversible) in
      (
        at ∙ ap some is,
        subst (λ (j : Job). j.resource_revision ≡ revision) is
            ((==_iff job.resource_revision revision).0 matches),
        subst (λ (j : Job). can_cancel j.state ≡ true) is allowed,
        subst (λ o. is_irreversible (purged_work o) db.trash ≡ false) (at ∙ ap some is) free,
        sym end ∙ (same5 ∙ (sym same4 ∙ here)),
      )

  close_if_running-jobs :
      (now id : ℕ) (state : JobState) (a : Unit {0}) (db next : Database)
      → close_if_running now id state db ≡ ok (a, next)
      → next.jobs ≡ db.jobs
  unfolding close_if_running
  close_if_running-jobs now id state a db next h = elim (Bool-cases (same_state state running)) [
    | inl active ↦
        let (n, one, after) = close_running_attempt-eq-ok now id _ a db next (rw active at h) in
        ap (λ (tables : Database). tables.jobs) after
    | inr idle ↦
        ap (λ (tables : Database). tables.jobs)
          (sym (pure-eq-ok {A = Unit {0}} tt a (rw idle at h)).1)
  ]

  record Cancels (now id revision : ℕ) (db next : Database) : Type 0 where
    current : Job
    found : find_job id db.jobs ≡ some current
    expected : current.resource_revision ≡ revision
    allowed : can_cancel current.state ≡ true
    reversible : is_irreversible (purged_work (some current)) db.trash ≡ false
    after : find_job id next.jobs ≡ some (in_cancelled_state now current)
    advances : Advances db next

  cancelled_parts :
      (now id revision : ℕ) (answer : JobRecord) (db next : Database)
      → cancel_requested now id revision db ≡ ok (answer, next)
      → Cancels now id revision db next
  unfolding cancel_requested
  cancelled_parts now id revision answer db next h =
      let (current, db5, checked, h5) = succeeded _ _ h in
      let (at, matches, allowed, reversible, start) =
        check_cancel-eq-ok id revision current db db5 checked in
      let (d, db6, delayed, h6) = succeeded _ _ h5 in
      let aside : SameQueue db db6 =
        subst (λ tables. SameQueue tables db6) start
          ((Aside-update_intents _ _).at db5 d db6 delayed) in
      let (updated, db7, wrote, h7) = succeeded _ _ h6 in
      let (row, db8, is_some, h8) = succeeded _ _ h7 in
      let (updated_is, same8) = or_throw-eq-ok _ updated is_some in
      let (e, db9, closed, h9) = succeeded _ _ h8 in
      let w =
        update_job-eq-ok id (λ (job : Job). true) (in_cancelled_state now) db6 db7 row
          (subst
            (λ o. update_job id (λ (job : Job). true) (in_cancelled_state now) db6 ≡ ok (o, db7))
            updated_is wrote) in
      let old_is : w.old ≡ current = some_injective (sym w.found ∙ (rw aside.jobs at)) in
      let shut : close_if_running now id current.state db7 ≡ ok (e, db9) =
        subst (λ tables. close_if_running now id current.state tables ≡ ok (e, db9)) same8 closed in
      let tail = (cancelled_tail now id row).at db9 answer next h9 in
      let is : row ≡ in_cancelled_state now current =
        w.is_change ∙ ap (in_cancelled_state now) old_is in
      let jobs : db9.jobs ≡ replace_job row db6.jobs =
        (close_if_running-jobs now id current.state e db7 db9 shut
          ∙ ap (λ (tables : Database). tables.jobs) w.after) in
      let key : row.id ≡ id = written_id _ _ _ db6 row db7 (λ job. refl) w in
      record {
        current = current;
        found = at;
        expected = matches;
        allowed = allowed;
        reversible = reversible;
        after = tail.kept id _ (
            ap (find_job id) jobs
            ∙ (subst (λ k. find_job k (replace_job row db6.jobs) ≡ some row) key
                  (find-replace_self row w.old db6.jobs
                    (subst (λ k. find_job k db6.jobs ≡ some w.old) (sym key) w.found))
                ∙ ap some is));
        advances = Advances-trans db db6 next (SameQueue-Advances aside) (
            Advances-trans db6 db9 next
              (close_cancelled now id current.state e db6 db7 db9 row w
                (ap (λ (job : Job). job.state) old_is) shut)
              tail.advances);
      }

  pub cancel_requested-Advances :
      (now id revision : ℕ) (answer : JobRecord) (db next : Database)
      → cancel_requested now id revision db ≡ ok (answer, next)
      → Advances db next
  cancel_requested-Advances now id revision answer db next h =
      (cancelled_parts now id revision answer db next h).advances
