-- ===== src/Queue/Coherence/Aside.antt =====
-- The parts of the transactions that touch neither jobs nor attempts: events, import runs, intents.
use pixiv_archive.Prelude.{
  ℕ, List, [], ◌∷◌, Bool, true, false, Option, String, if◌then◌else◌, sym, arith,
}
use pixiv_archive.Job.Retry.{DbError}
use pixiv_archive.Queue.Store.{
  Documents, Units, Database, Tx, Job, ImportRun, EventPayload, ◌>>=◌, pure, throw, gets, or_throw,
  throw_if, append_event,
}
use pixiv_archive.Queue.Transact.{
  Relates, succeeded, pure-eq-ok, gets-eq-ok, or_throw-eq-ok, throw_if-eq-ok,
}
use pixiv_archive.Queue.Linked.{
  update_runs, complete_linked_import_run, expect_status, ImportJobCompletion,
  fail_linked_import_run, cancel_linked_import_run, reset_linked_import_run_for_retry,
}
use pixiv_archive.Queue.Transitions.{append_events, update_intents}
use pixiv_archive.Queue.Coherence.{SameQueue, SameQueue-refl, SameQueue-trans}

module _ ⦃J : Documents⦄ ⦃U : Units⦄ where
  -- The transaction leaves the jobs and the attempts alone.
  abbrev pub Aside : {A : Type 0} → Tx A → Type 0
  Aside m = Relates SameQueue m

  pub Aside-pure : {A : Type 0} (a : A) → Aside (pure a)
  Aside-pure a = record { at = λ db b next h. rw (sym (pure-eq-ok a b h).1) (SameQueue-refl db) }

  pub Aside-gets : {A : Type 0} (f : Database → A) → Aside (gets f)
  Aside-gets f = record { at = λ db b next h. rw (sym (gets-eq-ok f h).1) (SameQueue-refl db) }

  pub Aside-or_throw : {A : Type 0} (e : DbError) (o : Option A) → Aside (or_throw e o)
  Aside-or_throw e o = record {
    at = λ db b next h. rw ((or_throw-eq-ok e o h).1) (SameQueue-refl db);
  }

  pub Aside-throw : {A : Type 0} (e : DbError) → Aside (throw {A = A} e)
  unfolding throw
  Aside-throw e = record { at = λ db a next h. absurd (cc) }

  pub Aside-throw_if : (t : Bool) (e : DbError) → Aside (throw_if t e)
  Aside-throw_if t e = record {
    at = λ db b next h. rw ((throw_if-eq-ok t e h).1) (SameQueue-refl db);
  }

  pub Aside-if :
      {A : Type 0} (t : Bool) (m n : Tx A) → Aside m → Aside n → Aside (if t then m else n)
  Aside-if true m n p q = p
  Aside-if false m n p q = q

  pub Aside-bind :
      {A B : Type 0} (m : Tx A) (f : A → Tx B) → Aside m → ((a : A) → Aside (f a)) → Aside (m >>= f)
  Aside-bind m f p q = record {
    at = λ db b last h.
        let (a, mid, first, later) = succeeded m f h in
        SameQueue-trans (p.at db a mid first) ((q a).at mid b last later);
  }

  pub Aside-append_event : (id : ℕ) (payload : EventPayload) → Aside (append_event id payload)
  unfolding append_event
  Aside-append_event id payload = record {
    at = λ db b next h. record { jobs = ground arith; attempts = ground arith };
  }

  Aside-update_runs :
      (test : ImportRun → Bool) (change : ImportRun → ImportRun) → Aside (update_runs test change)
  unfolding update_runs
  Aside-update_runs test change = record {
    at = λ db b next h. record { jobs = ground arith; attempts = ground arith };
  }

  pub Aside-update_intents : (id time : ℕ) → Aside (update_intents id time)
  unfolding update_intents
  Aside-update_intents id time = record {
    at = λ db b next h. record { jobs = ground arith; attempts = ground arith };
  }

  ruleset aside_rules = (
    Aside-pure, Aside-gets, Aside-or_throw, Aside-throw_if, Aside-if, Aside-bind,
    Aside-append_event, Aside-update_runs,
  )

  pub Aside-complete_import :
      (now id : ℕ) (completion : ImportJobCompletion)
      → Aside (complete_linked_import_run now id completion)
  unfolding complete_linked_import_run
  Aside-complete_import now id completion = search aside_rules

  pub Aside-fail_import :
      (now id : ℕ) (error_class : String) (message : Option String)
      → Aside (fail_linked_import_run now id error_class message)
  unfolding fail_linked_import_run expect_status
  Aside-fail_import now id error_class message = search aside_rules

  pub Aside-cancel_linked : (now id : ℕ) → Aside (cancel_linked_import_run now id)
  unfolding cancel_linked_import_run
  Aside-cancel_linked now id = search aside_rules

  pub Aside-reset_linked : (id : ℕ) → Aside (reset_linked_import_run_for_retry id)
  unfolding reset_linked_import_run_for_retry expect_status
  Aside-reset_linked id = search aside_rules

  pub Aside-append_events :
      (payload : ℕ → EventPayload) (rows : List Job) → Aside (append_events payload rows)
  unfolding append_events
  Aside-append_events payload [] = Aside-pure tt
  Aside-append_events payload (row ∷ rows) =
      Aside-bind _ _ (Aside-append_event row.id (payload row.resource_revision))
        (λ a. Aside-append_events payload rows)
