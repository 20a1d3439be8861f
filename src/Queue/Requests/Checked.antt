-- ===== src/Queue/Requests/Checked.antt =====
-- The statements of the transactions keep the attempts within the checks of their table
-- (job_attempt_state_check and its neighbours in migrations/0001_initial.sql).
use pixiv_archive.Prelude.{
  ℕ, List, [], ◌∷◌, ◌++◌, Bool, true, false, not, ◌||◌, Option, none, some, String, if◌then◌else◌,
  ◌≡◌, All, and_split, Bool-cases, inl, inr, arith,
}
use pixiv_archive.Job.Retry.{DbError}
use pixiv_archive.Queue.Store.{
  Documents, UnitSteps, Units, Database, Tx, Job, Attempt, EventPayload, ◌>>=◌, pure, throw, gets,
  or_throw, throw_if, append_event,
}
use pixiv_archive.Queue.Transact.{Relates, succeeded}
use pixiv_archive.Queue.Table.{write_job, write_change, update_job, update_each, update_jobs}
use pixiv_archive.Queue.Attempts.{
  attempt_checks, end_where, lets_in, fits, update_attempts, close_attempt, close_running_attempt,
  insert_attempt, Ending,
}
use pixiv_archive.Queue.Attempts.Effects.{All-append}
use pixiv_archive.Queue.Transitions.{
  JobCompletion, append_events, update_intents, complete_linked, fail_linked,
}
use pixiv_archive.Queue.Linked.{cancel_linked_import_run, reset_linked_import_run_for_retry}
use pixiv_archive.Queue.Insertion.{on_units}
use pixiv_archive.Queue.Insertion.Grows.{
  Growing, Growing-on_units, Growing-complete_linked, Growing-fail_linked,
}
use pixiv_archive.Queue.Accounts.{set_account_credential_invalid}
use pixiv_archive.Queue.Accounts.Waits.{Aside-set_account}
use pixiv_archive.Job.Priority.{JobPriority}
use pixiv_archive.Queue.Coherence.Aside.{
  Aside, Aside-pure, Aside-gets, Aside-or_throw, Aside-throw, Aside-throw_if, Aside-append_event,
  Aside-append_events, Aside-update_intents, Aside-cancel_linked, Aside-reset_linked,
}

-- Every attempt passes the checks of its table.
abbrev pub IsChecked : List Attempt → Type 0
IsChecked rows = All (λ attempt. attempt_checks attempt ≡ true) rows

end_where-IsChecked :
    (test : Attempt → Bool) (change : Attempt → Attempt) (rows : List Attempt)
    → lets_in test change rows ≡ true
    → IsChecked rows
    → IsChecked (end_where test change rows)
unfolding lets_in end_where
end_where-IsChecked test change [] fine h = tt
end_where-IsChecked test change (row ∷ rest) fine h =
    let (first, others) =
      and_split (not (test row) || attempt_checks (change row)) (lets_in test change rest) fine in
    (
      elim (Bool-cases (test row)) [
        | inl tested ↦ rw tested (rw tested at first)
        | inr passed ↦ rw passed (h.0)
      ],
      end_where-IsChecked test change rest others h.1,
    )

fits-checks :
    (attempt : Attempt) (rows : List Attempt)
    → fits attempt rows ≡ true
    → attempt_checks attempt ≡ true
unfolding fits
fits-checks attempt rows fine = ground arith

module _ ⦃J : Documents⦄ ⦃U : Units⦄ where
  open U use {Tables}

  pub record KeepsChecks (db next : Database) : Type 0 where
    pub keeps : IsChecked db.attempts → IsChecked next.attempts

  abbrev pub Checking : {A : Type 0} → Tx A → Type 0
  Checking m = Relates KeepsChecks m

  pub Checking-bind :
      {A B : Type 0} (m : Tx A) (f : A → Tx B)
      → Checking m
      → ((a : A) → Checking (f a))
      → Checking (m >>= f)
  Checking-bind m f p q = record {
    at = λ db b last h.
        let (a, mid, first, later) = succeeded m f h in
        record {
          keeps = λ fine. ((q a).at mid b last later).keeps ((p.at db a mid first).keeps fine);
        };
  }

  pub Checking-if :
      {A : Type 0} (t : Bool) (m n : Tx A) → Checking m → Checking n → Checking (if t then m else n)
  Checking-if true m n p q = p
  Checking-if false m n p q = q

  pub Checking-Growing : {A : Type 0} {m : Tx A} → Growing m → Checking m
  Checking-Growing p = record {
    at = λ db a next h. record { keeps = λ fine. rw ((p.at db a next h).attempts) fine };
  }

  pub Checking-Aside : {A : Type 0} {m : Tx A} → Aside m → Checking m
  Checking-Aside p = record {
    at = λ db a next h. record { keeps = λ fine. rw ((p.at db a next h).attempts) fine };
  }

  pub Checking-pure : {A : Type 0} (a : A) → Checking (pure a)
  Checking-pure a = Checking-Aside (Aside-pure a)

  pub Checking-write_job : (job : Job) → Checking (write_job job)
  unfolding write_job
  Checking-write_job job = record {
    at = λ db a next h. record {
      keeps = λ fine. let e : next.attempts ≡ db.attempts = ground arith in rw e fine;
    };
  }

  pub Checking-write_change :
      (test : Job → Bool) (change : Job → Job) (job : Option Job)
      → Checking (write_change test change job)
  unfolding write_change
  Checking-write_change test change none = Checking-pure none
  Checking-write_change test change (some job) =
      Checking-if _ _ _
        (Checking-bind _ _ (Checking-write_job (change job))
          (λ written. Checking-pure (some written)))
        (Checking-pure none)

  pub Checking-update_job :
      (id : ℕ) (test : Job → Bool) (change : Job → Job) → Checking (update_job id test change)
  unfolding update_job
  Checking-update_job id test change =
      Checking-bind _ _ (Checking-Aside (Aside-gets _))
        (λ job. Checking-write_change test change job)

  pub Checking-update_each :
      (ids : List ℕ) (test : Job → Bool) (change : Job → Job)
      → Checking (update_each ids test change)
  unfolding update_each
  Checking-update_each [] test change = Checking-pure []
  Checking-update_each (id ∷ ids) test change =
      Checking-bind _ _ (Checking-update_job id test change)
        (λ o. Checking-bind _ _ (Checking-update_each ids test change) (λ rest. Checking-pure _))

  pub Checking-update_jobs :
      (test : Job → Bool) (change : Job → Job) → Checking (update_jobs test change)
  unfolding update_jobs
  Checking-update_jobs test change =
      Checking-bind _ _ (Checking-Aside (Aside-gets _))
        (λ ids. Checking-update_each ids test change)

  pub Checking-update_attempts :
      (test : Attempt → Bool) (change : Attempt → Attempt) → Checking (update_attempts test change)
  unfolding update_attempts
  Checking-update_attempts test change = record {
    at = λ db closed next h. record {
      keeps = λ fine.
          let let_in : lets_in test change db.attempts ≡ true = ground arith in
          let e : next.attempts ≡ end_where test change db.attempts = ground arith in
          rw e (end_where-IsChecked test change db.attempts let_in fine);
    };
  }

  pub Checking-close_attempt :
      (id n : ℕ) (change : Attempt → Attempt) → Checking (close_attempt id n change)
  unfolding close_attempt
  Checking-close_attempt id n change =
      Checking-bind _ _ (Checking-update_attempts _ change)
        (λ closed. Checking-Aside (Aside-throw_if _ _))

  pub Checking-insert_attempt : (attempt : Attempt) → Checking (insert_attempt attempt)
  unfolding insert_attempt
  Checking-insert_attempt attempt = record {
    at = λ db a next h. record {
      keeps = λ fine.
          let room : fits attempt db.attempts ≡ true = ground arith in
          let e : next.attempts ≡ db.attempts ++ attempt ∷ [] = ground arith in
          rw e (
            All-append (λ row. attempt_checks row ≡ true) db.attempts attempt fine
              (fits-checks attempt db.attempts room));
    };
  }

  pub Checking-close_running_attempt :
      (now id : ℕ) (ending : Ending) → Checking (close_running_attempt now id ending)
  unfolding close_running_attempt
  Checking-close_running_attempt now id ending =
      Checking-bind _ _ (Checking-Aside (Aside-gets _)) (λ n. Checking-close_attempt id n _)

  pub Checking-gets : {A : Type 0} (f : Database → A) → Checking (gets f)
  Checking-gets f = Checking-Aside (Aside-gets f)

  pub Checking-or_throw : {A : Type 0} (e : DbError) (o : Option A) → Checking (or_throw e o)
  Checking-or_throw e o = Checking-Aside (Aside-or_throw e o)

  pub Checking-throw : {A : Type 0} (e : DbError) → Checking (throw {A = A} e)
  Checking-throw e = Checking-Aside (Aside-throw e)

  pub Checking-throw_if : (t : Bool) (e : DbError) → Checking (throw_if t e)
  Checking-throw_if t e = Checking-Aside (Aside-throw_if t e)

  pub Checking-append_event : (id : ℕ) (payload : EventPayload) → Checking (append_event id payload)
  Checking-append_event id payload = Checking-Aside (Aside-append_event id payload)

  pub Checking-append_events :
      (payload : ℕ → EventPayload) (rows : List Job) → Checking (append_events payload rows)
  Checking-append_events payload rows = Checking-Aside (Aside-append_events payload rows)

  pub Checking-complete_linked :
      (now id : ℕ) (completion : JobCompletion) → Checking (complete_linked now id completion)
  Checking-complete_linked now id completion =
      Checking-Growing (Growing-complete_linked now id completion)

  pub Checking-fail_linked :
      (now id : ℕ) (error_class : String) (message : Option String)
      → Checking (fail_linked now id error_class message)
  Checking-fail_linked now id error_class message =
      Checking-Growing (Growing-fail_linked now id error_class message)

  pub Checking-on_units :
      (now id : ℕ) (step : ℕ → Option JobPriority → Tables → UnitSteps Tables)
      → Checking (on_units now id step)
  Checking-on_units now id step = Checking-Growing (Growing-on_units now id step)

  pub Checking-set_account : (now id : ℕ) → Checking (set_account_credential_invalid now id)
  Checking-set_account now id = Checking-Aside (Aside-set_account now id)

  pub Checking-update_intents : (id time : ℕ) → Checking (update_intents id time)
  Checking-update_intents id time = Checking-Aside (Aside-update_intents id time)

  pub Checking-cancel_linked : (now id : ℕ) → Checking (cancel_linked_import_run now id)
  Checking-cancel_linked now id = Checking-Aside (Aside-cancel_linked now id)

  pub Checking-reset_linked : (id : ℕ) → Checking (reset_linked_import_run_for_retry id)
  Checking-reset_linked id = Checking-Aside (Aside-reset_linked id)

  pub ruleset checking_rules = (
    Checking-bind, Checking-if, Checking-pure, Checking-gets, Checking-or_throw, Checking-throw,
    Checking-throw_if, Checking-append_event, Checking-append_events, Checking-update_job,
    Checking-update_jobs, Checking-close_attempt, Checking-close_running_attempt,
    Checking-insert_attempt, Checking-complete_linked, Checking-fail_linked, Checking-on_units,
    Checking-set_account, Checking-update_intents, Checking-cancel_linked, Checking-reset_linked,
  )
