-- ===== src/Queue/Claiming/Answers.antt =====
-- What a claim answers, and what it has done to the tables then (crates/db/src/jobs/claiming.rs).
use pixiv_archive.Prelude.{
  ℕ, List, [], ◌∷◌, Bool, true, false, ◌&&◌, Option, none, some, ◌==◌, ◌≡◌, refl, sym, ◌∙◌, ok, inl,
  inr, Bool-cases, arith,
}
use mathlib.Core.Path.{subst}
use pixiv_archive.Prelude.Int.{ℤ}
use pixiv_archive.Job.State.{running}
use pixiv_archive.Job.Selection.{
  JobQuotaSelection, is_empty_selection, priority_values, kind_values, has_kind_restriction,
}
use pixiv_archive.Queue.Store.{Documents, Units, Database, Job}
use pixiv_archive.Queue.Transact.{succeeded, pure-eq-ok, gets-eq-ok, or_throw-eq-ok, throw_if-eq-ok}
use pixiv_archive.Queue.Table.{same_state, is_number, is_later, update_job}
use pixiv_archive.Queue.Coherence.{
  IsCoherent, untouched, Advances, Advances-given, Advances-refl, Advances-trans,
  SameQueue-Advances,
}
use pixiv_archive.Queue.Coherence.Aside.{Aside, Aside-bind, Aside-gets, Aside-throw}
use pixiv_archive.Queue.Transitions.Moves.{IsMove, update_job-Advances}
use pixiv_archive.Queue.Claiming.{
  can_claim, claim_if_some, claim_in_tx, microseconds_of, prolonged, heartbeat_record,
  answer_heartbeat, heartbeat_error, heartbeat, JobHeartbeatRecord,
}
use pixiv_archive.Queue.Claiming.Choice.{IsChoice, candidate-IsChoice}
use pixiv_archive.Queue.Claiming.Begins.{Began, claim_job-Began}

module _ ⦃J : Documents⦄ where
  empty-can_claim :
      (now : ℕ) (selection : JobQuotaSelection) (job : Job)
      → is_empty_selection selection ≡ true
      → can_claim now selection job ≡ false
  unfolding is_empty_selection can_claim priority_values kind_values has_kind_restriction
  empty-can_claim now selection job h = ground arith

  none_free :
      (locked : ℕ → Bool) (now : ℕ) (selection : JobQuotaSelection) (jobs : List Job)
      → is_empty_selection selection ≡ true
      → IsChoice locked now selection none jobs
  none_free locked now selection [] h = tt
  none_free locked now selection (job ∷ rest) h =
      (rw (empty-can_claim now selection job h) refl, none_free locked now selection rest h)

module _ ⦃J : Documents⦄ ⦃U : Units⦄ where
  -- What a claim promises: without a job, that none was free and nothing has changed.
  abbrev pub IsClaim :
      (ℕ → Bool) → ℕ → ℕ → JobQuotaSelection → ℤ → Database → Option Job → Database → Type 0
  IsClaim locked now owner selection duration db none next =
      IsChoice locked now selection none db.jobs × (next ≡ db)
  IsClaim locked now owner selection duration db (some row) next =
      (microseconds : ℕ) × (microseconds_of duration ≡ some microseconds)
      × Began locked now owner microseconds selection db row next

  claim_if_some-IsClaim :
      (locked : ℕ → Bool) (now owner microseconds : ℕ) (selection : JobQuotaSelection)
      (duration : ℤ) (choice o : Option Job) (db next : Database)
      → microseconds_of duration ≡ some microseconds
      → IsChoice locked now selection choice db.jobs
      → claim_if_some now owner microseconds choice db ≡ ok (o, next)
      → IsCoherent db
      → IsClaim locked now owner selection duration db o next × Advances db next
  unfolding claim_if_some
  claim_if_some-IsClaim locked now owner microseconds selection duration none o db next long choice
        h coherent =
      let (is, end) = pure-eq-ok {A = Option Job} none o h in
      rw (← is, ← end) ((choice, refl), Advances-refl db)
  claim_if_some-IsClaim locked now owner microseconds selection duration (some chosen) o db next
        long choice h coherent =
      let (row, is, began, advances) =
        claim_job-Began locked now owner microseconds selection chosen o db next choice h
          coherent in
      rw is ((microseconds, long, began), advances)

  pub claim_in_tx_lem :
      (locked : ℕ → Bool) (now owner : ℕ) (selection : JobQuotaSelection) (duration : ℤ)
      (o : Option Job) (db next : Database)
      → claim_in_tx locked now owner selection duration db ≡ ok (o, next)
      → IsCoherent db
      → IsClaim locked now owner selection duration db o next × Advances db next
  unfolding claim_in_tx
  claim_in_tx_lem locked now owner selection duration o db next h coherent =
      let (a, db1, checked, h1) = succeeded _ _ h in
      let (fine, same1) = throw_if-eq-ok _ _ checked in
      elim (Bool-cases (is_empty_selection selection)) [
        | inl empty ↦
            let (is, end) = pure-eq-ok {A = Option Job} none o (rw (empty, same1) at h1) in
            rw (← is, ← end)
              ((none_free locked now selection db.jobs empty, refl), Advances-refl db)
        | inr some_kinds ↦
            let (microseconds, db2, long, h2) = succeeded _ _ (rw (some_kinds, same1) at h1) in
            let (micro, same2) = or_throw-eq-ok _ _ long in
            let (choice, db3, chose, h3) = succeeded _ _ h2 in
            let (is_choice, same3) = gets-eq-ok _ chose in
            let here : db3 ≡ db = sym same3 ∙ same2 in
            claim_if_some-IsClaim locked now owner microseconds selection duration choice o db next
              micro (rw (← is_choice, same2) (candidate-IsChoice locked now selection db.jobs))
              (subst (λ tables. claim_if_some now owner microseconds choice tables ≡ ok (o, next))
                here h3)
              coherent
      ]

  pub claim_in_tx-Advances :
      (locked : ℕ → Bool) (now owner : ℕ) (selection : JobQuotaSelection) (duration : ℤ)
      (o : Option Job) (db next : Database)
      → claim_in_tx locked now owner selection duration db ≡ ok (o, next)
      → Advances db next
  claim_in_tx-Advances locked now owner selection duration o db next h =
      Advances-given db next
        (λ coherent. (claim_in_tx_lem locked now owner selection duration o db next h coherent).1)

  prolong-IsMove :
      (now revision owner microseconds : ℕ)
      → IsMove
          (λ (job : Job).
            job.resource_revision == revision
            && (is_number job.lease_owner owner
                && (same_state job.state running && is_later job.lease_expires_at now)))
          (prolonged now microseconds)
  prolong-IsMove now revision owner microseconds = record {
    same_id = λ job. refl;
    onward = λ job h. untouched refl refl refl refl;
    attempts = λ job. refl;
    active = λ job h. refl;
  }

  record-Aside : (row : Job) (expires : Option ℕ) → Aside (heartbeat_record row expires)
  unfolding heartbeat_record
  record-Aside row none = record { at = λ db a next h. absurd (cc) }
  record-Aside row (some expires) = record {
    at = λ db a next h. record { jobs = ground arith; attempts = ground arith };
  }

  answer-Aside :
      (id revision owner : ℕ) (row : Option Job) → Aside (answer_heartbeat id revision owner row)
  unfolding answer_heartbeat
  answer-Aside id revision owner none =
      Aside-bind _ _ (Aside-gets _)
        (λ current. Aside-throw (heartbeat_error revision owner current))
  answer-Aside id revision owner (some row) = record-Aside row row.lease_expires_at

  pub heartbeat-Advances :
      (now id revision owner : ℕ) (extend_by : ℤ) (answer : JobHeartbeatRecord) (db next : Database)
      → heartbeat now id revision owner extend_by db ≡ ok (answer, next)
      → Advances db next
  unfolding heartbeat
  heartbeat-Advances now id revision owner extend_by answer db next h =
      let (a, db1, checked, h1) = succeeded _ _ h in
      let (fine, same1) = throw_if-eq-ok _ _ checked in
      let (microseconds, db2, long, h2) = succeeded _ _ h1 in
      let (micro, same2) = or_throw-eq-ok _ _ long in
      let (row, db3, updated, h3) = succeeded _ _ h2 in
      Advances-trans db db3 next
        (update_job-Advances _ _ (prolong-IsMove now revision owner microseconds) id db db3 row (
          subst
            (λ tables.
              update_job id
                (λ job.
                  job.resource_revision == revision
                  && (is_number job.lease_owner owner
                      && (same_state job.state running && is_later job.lease_expires_at now)))
                (prolonged now microseconds) tables
              ≡ ok (row, db3))
            (same2 ∙ same1) updated))
        (SameQueue-Advances ((answer-Aside id revision owner row).at db3 answer next h3))
