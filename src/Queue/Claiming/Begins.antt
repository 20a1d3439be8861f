-- ===== src/Queue/Claiming/Begins.antt =====
-- What a claim does to the tables (crates/db/src/jobs/claiming.rs).
use pixiv_archive.Prelude.{
  ℕ, ◌+◌, ◌-◌, List, Bool, true, false, not, Option, some, ◌==◌, ◌≡◌, refl, sym, ap, ◌∙◌, ok, inl,
  inr, Bool-cases, and_split, arith,
}
use mathlib.Core.Path.{subst}
use pixiv_archive.Job.State.{running}
use pixiv_archive.Job.Selection.{JobQuotaSelection}
use pixiv_archive.Queue.Store.{Documents, Units, Database, Job, Attempt, job_claimed}
use pixiv_archive.Queue.Transact.{succeeded, pure-eq-ok, or_throw-eq-ok}
use pixiv_archive.Queue.Table.{same_state, is_running, find_job, update_job}
use pixiv_archive.Queue.Table.Rows.{Wrote, update_job-eq-ok, same_state_running, find-replace_self}
use pixiv_archive.Queue.Attempts.{numbers, open_numbers, is_open, insert_attempt}
use pixiv_archive.Queue.Attempts.Numbers.{Ends, numbers-end_where, open_numbers-end_other}
use pixiv_archive.Queue.Attempts.Effects.{close_attempt-eq-ok, insert_attempt-eq-ok, close_tracked}
use pixiv_archive.Queue.Coherence.{
  IsTracked, IsCoherent, revised, Advances, Advances-trans, SameQueue-Advances,
}
use pixiv_archive.Queue.Coherence.Shapes.{begin_Advances, written_id}
use pixiv_archive.Queue.Coherence.Aside.{Aside-append_event}
use pixiv_archive.Queue.Claiming.{
  lease_expired, can_claim, claimed_row, lapsed, new_attempt, close_lapsed, claim_job,
}
use pixiv_archive.Queue.Claiming.Choice.{IsChoice}

lapsed-Ends : (now : ℕ) → Ends (lapsed now)
lapsed-Ends now = record { job_id = λ a. refl; number = λ a. refl; closed = λ a. refl }

module _ ⦃J : Documents⦄ where
  some_injective : {a b : Job} → some a ≡ some b → a ≡ b
  some_injective h = cc

  -- A row that can be claimed and whose lease has not expired does not run.
  pub can_claim-idle :
      (now : ℕ) (selection : JobQuotaSelection) (job : Job)
      → can_claim now selection job ≡ true
      → lease_expired now job ≡ false
      → is_running job.state ≡ false
  unfolding can_claim lease_expired same_state
  can_claim-idle now selection job free fresh = ground arith

  lease_expired-running :
      (now : ℕ) (job : Job) → lease_expired now job ≡ true → is_running job.state ≡ true
  unfolding lease_expired
  lease_expired-running now job h =
      sym (same_state_running job.state) ∙ (and_split (same_state job.state running) _ h).0

module _ ⦃J : Documents⦄ ⦃U : Units⦄ where
  -- What `close_lapsed` leaves to the next attempt.
  record Cleared (id attempts : ℕ) (active : Bool) (db : Database) (rows : List Attempt)
      : Type 0 where
    ended : IsTracked id attempts active db.attempts → IsTracked id attempts false rows
    others :
        (other : ℕ)
        → (id == other) ≡ false
        → (numbers other rows ≡ numbers other db.attempts)
          × (open_numbers other rows ≡ open_numbers other db.attempts)

  close_lapsed-eq-ok :
      (now : ℕ) (expired active : Bool) (id attempts : ℕ) (number : ℕ) (a : Unit {0})
      (db next : Database)
      → active ≡ expired
      → close_lapsed now expired id number db ≡ ok (a, next)
      → (next.jobs ≡ db.jobs) × Cleared id attempts active db next.attempts
  unfolding close_lapsed
  close_lapsed-eq-ok now true active id attempts number a db next is h =
      let (one, after) = close_attempt-eq-ok id (number - 1) (lapsed now) a db next h in
      (
        ap (λ (tables : Database). tables.jobs) after,
        record {
          ended = λ t. rw after (
              close_tracked id (number - 1) attempts (lapsed now) db.attempts (lapsed-Ends now) one
                (rw is at t));
          others = λ other apart. rw after (
            numbers-end_where (is_open id (number - 1)) (lapsed now) (lapsed-Ends now) other
                db.attempts,
            open_numbers-end_other id (number - 1) (lapsed now) (lapsed-Ends now) other db.attempts
                apart,
          );
        },
      )
  close_lapsed-eq-ok now false active id attempts number a db next is h =
      let same : db ≡ next = (pure-eq-ok {A = Unit {0}} tt a h).1 in
      (
        rw same refl,
        record { ended = λ t. rw (is, same) at t; others = λ other apart. rw same (refl, refl) },
      )

  -- The row that a claim has written: the choice from the free rows, running under a new lease.
  pub record Began (locked : ℕ → Bool) (now owner microseconds : ℕ) (selection : JobQuotaSelection)
      (db : Database) (row : Job) (next : Database) : Type 0 where
    pub chosen : Job
    pub is_choice : IsChoice locked now selection (some chosen) db.jobs
    pub is_row : row ≡ claimed_row now owner microseconds chosen
    pub after : find_job row.id next.jobs ≡ some row

  module _ (locked : ℕ → Bool) (now owner microseconds : ℕ) (selection : JobQuotaSelection)
      (chosen : Job) (o : Option Job) (db next : Database)
      (is_choice : IsChoice locked now selection (some chosen) db.jobs) where
    -- The job that was chosen is the one that the update finds.
    chosen_is :
        (h : IsCoherent db) (old : Job) → find_job chosen.id db.jobs ≡ some old → old ≡ chosen
    chosen_is h old found = some_injective (sym found ∙ is_choice.1 h.keyed)

    active_is : is_running chosen.state ≡ lease_expired now chosen
    active_is = elim (Bool-cases (lease_expired now chosen)) [
      | inl expired ↦ lease_expired-running now chosen expired ∙ sym expired
      | inr fresh ↦
          can_claim-idle now selection chosen
            (and_split (can_claim now selection chosen) (not (locked chosen.id)) is_choice.0).0
            fresh
          ∙ sym fresh
    ]

    began :
        (row : Job) (mid cleared inserted : Database) (a b : Unit {0}) (h : IsCoherent db)
        (w : Wrote chosen.id (λ (job : Job). true) (claimed_row now owner microseconds) db row mid)
        → close_lapsed now (lease_expired now chosen) row.id row.attempts mid ≡ ok (a, cleared)
        → insert_attempt (new_attempt now row) cleared ≡ ok (b, inserted)
        → (row ≡ claimed_row now owner microseconds chosen)
          × (find_job row.id inserted.jobs ≡ some row)
          × Advances db inserted
    began row mid cleared inserted a b h w closed put =
        let old_is = chosen_is h w.old w.found in
        let id = written_id _ _ _ db row mid (λ job. refl) w in
        let active : is_running w.old.state ≡ lease_expired now chosen = rw old_is active_is in
        let (jobs, clear) =
          close_lapsed-eq-ok now (lease_expired now chosen) (is_running w.old.state) row.id
            w.old.attempts row.attempts a mid cleared active closed in
        let after = insert_attempt-eq-ok (new_attempt now row) b cleared inserted put in
        let same : mid.attempts ≡ db.attempts =
          ap (λ (tables : Database). tables.attempts) w.after in
        let rows : inserted.jobs ≡ mid.jobs =
          ap (λ (tables : Database). tables.jobs) after ∙ jobs in
        let count : row.attempts ≡ w.old.attempts + 1 = rw w.is_change refl in
        (
          w.is_change ∙ ap (claimed_row now owner microseconds) old_is,
          rw (rows, w.after) (find-replace_self row w.old db.jobs (rw id w.found)),
          begin_Advances chosen.id _ _ db row mid (λ job. refl) w cleared.attempts
              (new_attempt now row) inserted (λ t. rw id at (clear.ended (rw (same, id) t)))
              (λ other apart. rw same at (clear.others other (rw id apart))) (rw w.is_change refl)
              (rw w.is_change (revised (omega arith) (omega arith))) count id count refl rows
              (ap (λ (tables : Database). tables.attempts) after),
        )

    pub claim_job-Began :
        claim_job now owner microseconds chosen db ≡ ok (o, next)
        → IsCoherent db
        → (row : Job) × (o ≡ some row)
          × Began locked now owner microseconds selection db row next
          × Advances db next
    unfolding claim_job
    claim_job-Began h coherent =
        let (updated, mid, wrote, h1) = succeeded _ _ h in
        let (row, mid', is, h2) = succeeded _ _ h1 in
        let (updated_is, same) = or_throw-eq-ok _ updated is in
        let (a, cleared, closed, h3) = succeeded _ _ h2 in
        let (b, inserted, put, h4) = succeeded _ _ h3 in
        let (c, last, told, h5) = succeeded _ _ h4 in
        let w =
          update_job-eq-ok chosen.id (λ (job : Job). true) (claimed_row now owner microseconds) db
            mid row
            (subst
              (λ o.
                update_job chosen.id (λ (job : Job). true) (claimed_row now owner microseconds) db
                ≡ ok (o, mid))
              updated_is wrote) in
        let (is_row, found, advances) =
          began row mid cleared inserted a b coherent w
            (subst
              (λ tables.
                close_lapsed now (lease_expired now chosen) row.id row.attempts tables
                ≡ ok (a, cleared))
              same closed)
            put in
        let (answer, end) = pure-eq-ok {A = Option Job} (some row) o h5 in
        let aside =
          (Aside-append_event row.id (job_claimed row.resource_revision)).at inserted c last told in
        (
          row,
          sym answer,
          record {
            chosen = chosen;
            is_choice = is_choice;
            is_row = is_row;
            after = rw (← end, aside.jobs) found;
          },
          Advances-trans db inserted next advances
              (subst (λ tables. Advances inserted tables) end (SameQueue-Advances aside)),
        )
