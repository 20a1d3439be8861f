-- ===== src/Queue/Table/Rows.antt =====
-- Finding a row after a write, and what a successful update of one row has done.
use pixiv_archive.Prelude.{
  ℕ, List, [], ◌∷◌, Bool, true, false, Option, none, some, ◌==◌, ◌≡◌, refl, ◌∙◌, sym, Bool-cases,
  inl, inr, ok, arith,
}
use pixiv_archive.Job.State.{JobState, running}
use pixiv_archive.Queue.Store.{Documents, Units, Database, Job, gets, pure}
use pixiv_archive.Queue.Transact.{succeeded, then_ok, pure-eq-ok, gets-eq-ok}
use pixiv_archive.Queue.Table.{
  find_job, replace_job, write_job, write_change, update_job, row_error, passes_checks,
  out_of_range, same_state, is_running,
}

pub same_state_running : (s : JobState) → same_state s running ≡ is_running s
unfolding same_state
same_state_running s = ground arith

pub same_state-idle :
    (s t : JobState) → is_running t ≡ false → same_state s t ≡ true → is_running s ≡ false
unfolding same_state
same_state-idle s t idle h = ground arith

module _ ⦃J : Documents⦄ where
  pub find_job-id :
      (id : ℕ) (jobs : List Job) (job : Job) → find_job id jobs ≡ some job → job.id ≡ id
  unfolding find_job
  find_job-id id [] job h = cc
  find_job-id id (other ∷ rest) job h = ground (arith, find_job-id id rest job)

  pub find-replace_self :
      (job old : Job) (jobs : List Job)
      → find_job job.id jobs ≡ some old
      → find_job job.id (replace_job job jobs) ≡ some job
  unfolding find_job replace_job
  find-replace_self job old [] h = cc
  find-replace_self job old (other ∷ rest) h = ground (arith, find-replace_self job old rest)

  pub find-replace_other :
      (id : ℕ) (job : Job) (jobs : List Job)
      → (job.id == id) ≡ false
      → find_job id (replace_job job jobs) ≡ find_job id jobs
  unfolding find_job replace_job
  find-replace_other id job [] h = refl
  find-replace_other id job (other ∷ rest) h = ground (arith, find-replace_other id job rest)

module _ ⦃J : Documents⦄ ⦃U : Units⦄ where
  -- A row that was written has passed the checks, and is the only change.
  pub write_job-eq-ok :
      (job written : Job) (db next : Database)
      → write_job job db ≡ ok (written, next)
      → (written ≡ job)
        × (row_error job db.jobs ≡ none)
        × (next ≡ record db { jobs = replace_job job db.jobs })
  unfolding write_job
  write_job-eq-ok job written db next h = (ground arith, ground arith, ground arith)

  pub row_error-eq-none :
      (job : Job) (jobs : List Job)
      → row_error job jobs ≡ none
      → (out_of_range job ≡ false) × (passes_checks job ≡ true)
  unfolding row_error
  row_error-eq-none job jobs h = (ground arith, ground arith)

  -- The row that a successful update has found and written, if it has written one.
  pub record Wrote (id : ℕ) (test : Job → Bool) (change : Job → Job) (db : Database) (written : Job)
      (next : Database) : Type 0 where
    pub old : Job
    pub found : find_job id db.jobs ≡ some old
    pub tested : test old ≡ true
    pub is_change : written ≡ change old
    pub let_in : row_error written db.jobs ≡ none
    pub after : next ≡ record db { jobs = replace_job written db.jobs }

  build_written :
      (id : ℕ) (test : Job → Bool) (change : Job → Job) (db : Database) (old row written : Job)
      (next : Database)
      → find_job id db.jobs ≡ some old
      → test old ≡ true
      → row ≡ change old
      → row_error (change old) db.jobs ≡ none
      → next ≡ record db { jobs = replace_job (change old) db.jobs }
      → row ≡ written
      → Wrote id test change db written next
  build_written id test change db old row written next found tested is fine after same =
      let e : change old ≡ written = sym is ∙ same in
      record {
        old = old;
        found = found;
        tested = tested;
        is_change = sym e;
        let_in = rw e at fine;
        after = rw e at after;
      }

  some_injective : (a b : Job) → some a ≡ some b → a ≡ b
  some_injective a b h = cc

  write_change-eq-ok :
      (id : ℕ) (test : Job → Bool) (change : Job → Job) (found : Option Job) (db next : Database)
      (written : Job)
      → find_job id db.jobs ≡ found
      → write_change test change found db ≡ ok (some written, next)
      → Wrote id test change db written next
  unfolding write_change
  write_change-eq-ok id test change none db next written at h =
      absurd (let e : none ≡ some written = (pure-eq-ok _ _ h).0 in cc)
  write_change-eq-ok id test change (some old) db next written at h = elim (Bool-cases (test old)) [
    | inr refused ↦
        absurd (let e : none ≡ some written = (pure-eq-ok _ _ (rw refused at h)).0 in cc)
    | inl tested ↦
        let (row, mid, wrote, answered) = succeeded _ _ (rw tested at h) in
        let (is, fine, after) = write_job-eq-ok (change old) row db mid wrote in
        let (same, last) = pure-eq-ok _ _ answered in
        build_written id test change db old row written next at tested is fine (sym last ∙ after)
          (some_injective row written same)
  ]

  pub update_job-eq-ok :
      (id : ℕ) (test : Job → Bool) (change : Job → Job) (db next : Database) (written : Job)
      → update_job id test change db ≡ ok (some written, next)
      → Wrote id test change db written next
  unfolding update_job
  update_job-eq-ok id test change db next written h =
      let (found, mid, got, wrote) = succeeded _ _ h in
      let (at, same) = gets-eq-ok _ got in
      write_change-eq-ok id test change found db next written at (rw (← same) at wrote)

  write_change-eq-none :
      (test : Job → Bool) (change : Job → Job) (found : Option Job) (db next : Database)
      → write_change test change found db ≡ ok (none, next)
      → next ≡ db
  unfolding write_change
  write_change-eq-none test change none db next h = sym (pure-eq-ok _ _ h).1
  write_change-eq-none test change (some old) db next h = elim (Bool-cases (test old)) [
    | inr refused ↦ sym (pure-eq-ok {A = Option Job} none none (rw refused at h)).1
    | inl tested ↦
        let (row, mid, wrote, answered) = succeeded _ _ (rw tested at h) in
        absurd (let e : some row ≡ none = (pure-eq-ok _ _ answered).0 in cc)
  ]

  pub update_job-eq-none :
      (id : ℕ) (test : Job → Bool) (change : Job → Job) (db next : Database)
      → update_job id test change db ≡ ok (none, next)
      → next ≡ db
  unfolding update_job
  update_job-eq-none id test change db next h =
      let (found, mid, got, wrote) = succeeded _ _ h in
      let (at, same) = gets-eq-ok _ got in
      write_change-eq-none test change found mid next wrote ∙ sym same

  write_job_accepts :
      (job : Job) (db : Database)
      → row_error job db.jobs ≡ none
      → write_job job db ≡ ok (job, record db { jobs = replace_job job db.jobs })
  unfolding write_job
  write_job_accepts job db fine = ground arith

  -- An update of a row that is there, passes the test and is accepted succeeds.
  pub update_job_accepts :
      (id : ℕ) (test : Job → Bool) (change : Job → Job) (db : Database) (old : Job)
      → find_job id db.jobs ≡ some old
      → test old ≡ true
      → row_error (change old) db.jobs ≡ none
      → update_job id test change db
        ≡ ok (some (change old), record db { jobs = replace_job (change old) db.jobs })
  unfolding update_job write_change gets pure
  update_job_accepts id test change db old found tested fine =
      then_ok _ _ {mid = db} {a = find_job id db.jobs} refl
        (rw (found, tested) (then_ok _ _ (write_job_accepts (change old) db fine) refl))
