-- ===== src/Queue/Insertion/Grows.antt =====
-- The parts of the transactions that leave the jobs as they are but for new ones: the insertion of a
-- job, and the operations on the units of subscription runs, which enqueue the jobs of a pending run.
use pixiv_archive.Prelude.{
  ℕ, [], ◌∷◌, ◌++◌, Bool, true, false, Option, none, some, String, if◌then◌else◌, ◌≡◌, refl, sym,
  ap, ◌∙◌, ok, arith,
}
use mathlib.Core.Path.{subst}
use pixiv_archive.Job.Priority.{JobPriority}
use pixiv_archive.Subscription.Account.{PixivAccountState}
use pixiv_archive.Queue.Store.{
  Documents, NewJob, UnitSteps, leave, fail_with, panic, enqueue, append, Units, Database, Tx, Job,
  ◌>>=◌,
}
use pixiv_archive.Queue.Transact.{Relates, succeeded, gets-eq-ok, or_throw-eq-ok}
use pixiv_archive.Queue.Table.{is_running, find_job, row_error}
use pixiv_archive.Queue.Table.Rows.{row_error-eq-none}
use pixiv_archive.Queue.Insertion.{
  first_state, first_row, insert_job, enqueue_in_tx, run_steps, on_units,
}
use pixiv_archive.Queue.Transitions.{
  JobCompletion, task_only, import, subscription, complete_linked, fail_linked,
}
use pixiv_archive.Queue.Coherence.{Grows, Grows-trans, SameQueue-Grows}
use pixiv_archive.Queue.Coherence.Insert.{IsInsert-Grows}
use pixiv_archive.Queue.Coherence.Aside.{
  Aside, Aside-pure, Aside-bind, Aside-append_event, Aside-complete_import, Aside-fail_import,
}

first_state-idle : (state : Option PixivAccountState) → is_running (first_state state) ≡ false
first_state-idle none = refl
first_state-idle (some state) = ground arith

module _ ⦃J : Documents⦄ ⦃U : Units⦄ where
  open U use {Tables}

  pub insert_job-eq-ok :
      (row : Job) (refers : Bool) (a : Unit {0}) (db next : Database)
      → insert_job row refers db ≡ ok (a, next)
      → (find_job row.id db.jobs ≡ none)
        × (row_error row db.jobs ≡ none)
        × (next ≡ record db { jobs = db.jobs ++ row ∷ [] })
  unfolding insert_job
  insert_job-eq-ok row refers a db next h = (ground arith, ground arith, ground arith)

  insert_job-Grows :
      (row : Job) (refers : Bool) (a : Unit {0}) (db next : Database)
      → is_running row.state ≡ false
      → row.attempts ≡ 0
      → insert_job row refers db ≡ ok (a, next)
      → Grows db next
  insert_job-Grows row refers a db next idle none_yet h =
      let (fresh, fine, after) = insert_job-eq-ok row refers a db next h in
      let (fits, passes) = row_error-eq-none row db.jobs fine in
      IsInsert-Grows db next row (record {
        fresh = fresh;
        jobs = ap (λ (tables : Database). tables.jobs) after;
        attempts = ap (λ (tables : Database). tables.attempts) after;
        idle = idle;
        no_attempts = none_yet;
        legal = (passes, fits);
      })

  pub enqueue_in_tx-Grows :
      (now id : ℕ) (job : NewJob) (answer : ℕ) (db next : Database)
      → enqueue_in_tx now id job db ≡ ok (answer, next)
      → Grows db next
  unfolding enqueue_in_tx first_row
  enqueue_in_tx-Grows now id job answer db next h =
      let (kind, db1, known, h1) = succeeded _ _ h in
      let (kind_is, same1) = or_throw-eq-ok _ _ known in
      let (state, db2, looked, h2) = succeeded _ _ h1 in
      let (state_is, same2) = gets-eq-ok _ looked in
      let (a, db3, put, h3) = succeeded _ _ h2 in
      subst (λ tables. Grows tables next) (sym same2 ∙ same1)
        (Grows-trans db2 db3 next
          (insert_job-Grows (first_row now id job kind state) _ a db2 db3 (first_state-idle state)
            refl put)
          (SameQueue-Grows (
            (Aside-bind _ _ (Aside-append_event id _) (λ b. Aside-pure id)).at db3 answer next h3)))

  -- The transaction leaves the jobs that it finds as they are.
  abbrev pub Growing : {A : Type 0} → Tx A → Type 0
  Growing m = Relates Grows m

  pub Growing-Aside : {A : Type 0} {m : Tx A} → Aside m → Growing m
  Growing-Aside p = record { at = λ db a next h. SameQueue-Grows (p.at db a next h) }

  pub Growing-if :
      {A : Type 0} (t : Bool) (m n : Tx A) → Growing m → Growing n → Growing (if t then m else n)
  Growing-if true m n p q = p
  Growing-if false m n p q = q

  pub Growing-bind :
      {A B : Type 0} (m : Tx A) (f : A → Tx B)
      → Growing m
      → ((a : A) → Growing (f a))
      → Growing (m >>= f)
  Growing-bind m f p q = record {
    at = λ db b last h.
        let (a, mid, first, later) = succeeded m f h in
        Grows-trans db mid last (p.at db a mid first) ((q a).at mid b last later);
  }

  Growing-run_steps : (now : ℕ) (steps : UnitSteps Tables) → Growing (run_steps now steps)
  unfolding run_steps
  Growing-run_steps now (leave tables) = record {
    at = λ db a next h. SameQueue-Grows (record { jobs = ground arith; attempts = ground arith });
  }
  Growing-run_steps now (fail_with e) = record { at = λ db a next h. absurd (cc) }
  Growing-run_steps now panic = record { at = λ db a next h. absurd (cc) }
  Growing-run_steps now (enqueue id job rest) =
      Growing-bind _ _ (record { at = λ db a next h. enqueue_in_tx-Grows now id job a db next h })
        (λ a. Growing-run_steps now rest)
  Growing-run_steps now (append id payload rest) =
      Growing-bind _ _ (Growing-Aside (Aside-append_event id payload))
        (λ a. Growing-run_steps now rest)

  pub Growing-on_units :
      (now id : ℕ) (step : ℕ → Option JobPriority → Tables → UnitSteps Tables)
      → Growing (on_units now id step)
  unfolding on_units
  Growing-on_units now id step = record {
    at = λ db a next h. (Growing-run_steps now _).at db a next h;
  }

  pub Growing-complete_linked :
      (now id : ℕ) (completion : JobCompletion) → Growing (complete_linked now id completion)
  unfolding complete_linked
  Growing-complete_linked now id task_only = Growing-Aside (Aside-pure tt)
  Growing-complete_linked now id (import completion) =
      Growing-Aside (Aside-complete_import now id completion)
  Growing-complete_linked now id (subscription completion) = Growing-on_units now id _

  pub Growing-fail_linked :
      (now id : ℕ) (error_class : String) (message : Option String)
      → Growing (fail_linked now id error_class message)
  unfolding fail_linked
  Growing-fail_linked now id error_class message =
      Growing-bind _ _ (Growing-Aside (Aside-fail_import now id error_class message))
        (λ a. Growing-on_units now id _)
