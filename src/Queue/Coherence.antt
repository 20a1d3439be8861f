-- ===== src/Queue/Coherence.antt =====
-- What the tables of jobs and of attempts have to do with each other, and how a job moves on from
-- one state of the tables to a later one.
pub mod Update
pub mod Shapes
pub mod Insert
pub mod Aside
use pixiv_archive.Prelude.{
  ℕ, ◌<◌, ◌≤◌, List, [], ◌∷◌, Bool, true, false, Option, none, some, if◌then◌else◌, ◌==◌, ◌≡◌, refl,
  sym, ◌∙◌, ◌⊎◌, inl, inr, All, Bool-cases, Option-cases, arith,
}
use pixiv_archive.Job.State.{JobState}
use pixiv_archive.Queue.Store.{Documents, Units, Database, Job, Attempt}
use pixiv_archive.Queue.Table.{find_job, is_running, passes_checks, out_of_range}
use pixiv_archive.Queue.Attempts.{numbers, open_numbers}

-- The attempts at a job with the given count of attempts: they are numbered from 1 to the count,
-- and one runs, the last, exactly if the job does.
pub record IsTracked (id attempts : ℕ) (active : Bool) (rows : List Attempt) : Type 0 where
  pub bounded : All (λ n. (0 < n) × (n ≤ attempts)) (numbers id rows)
  pub opened : open_numbers id rows ≡ (if active then attempts ∷ [] else [])

module _ ⦃J : Documents⦄ where
  -- A later version of a job: it has a larger revision, or it has not changed hands.
  pub data Onward (job later : Job) : Type 0 where
    revised :
        job.resource_revision < later.resource_revision
        → job.attempts ≤ later.attempts
        → Onward job later
    untouched :
        job.resource_revision ≡ later.resource_revision
        → job.attempts ≡ later.attempts
        → job.state ≡ later.state
        → job.lease_owner ≡ later.lease_owner
        → Onward job later

  pub Onward-refl : (job : Job) → Onward job job
  Onward-refl job = untouched refl refl refl refl

  pub Onward-trans : {a b c : Job} → Onward a b → Onward b c → Onward a c
  Onward-trans (revised r n) (revised r' n') = revised (omega arith) (omega arith)
  Onward-trans (revised r n) (untouched e f s o) = revised (omega arith) (omega arith)
  Onward-trans (untouched e f s o) (revised r n) = revised (omega arith) (omega arith)
  Onward-trans (untouched e f s o) (untouched e' f' s' o') =
      untouched (e ∙ e') (f ∙ f') (s ∙ s') (o ∙ o')

  -- The identifier is the primary key.
  abbrev pub IsKeyed : List Job → Type 0
  IsKeyed [] = Unit {0}
  IsKeyed (job ∷ rest) = (find_job job.id rest ≡ none) × IsKeyed rest

module _ ⦃J : Documents⦄ ⦃U : Units⦄ where
  pub record IsCoherent (db : Database) : Type 0 where
    pub keyed : IsKeyed db.jobs
    pub tracked :
        (id : ℕ) (job : Job)
        → find_job id db.jobs ≡ some job
        → IsTracked id job.attempts (is_running job.state) db.attempts
    pub legal :
        (id : ℕ) (job : Job)
        → find_job id db.jobs ≡ some job
        → (passes_checks job ≡ true) × (out_of_range job ≡ false)
    pub untried : (id : ℕ) → find_job id db.jobs ≡ none → numbers id db.attempts ≡ []

  -- Every job is still there, and has moved on.
  pub record Evolves (db next : Database) : Type 0 where
    pub onward :
        (id : ℕ) (job : Job)
        → find_job id db.jobs ≡ some job
        → (later : Job) × (find_job id next.jobs ≡ some later) × Onward job later

  pub Evolves-refl : (db : Database) → Evolves db db
  Evolves-refl db = record { onward = λ id job at. (job, at, Onward-refl job) }

  pub Evolves-trans : (a b c : Database) → Evolves a b → Evolves b c → Evolves a c
  Evolves-trans a b c first then_on = record {
    onward = λ id job at.
        let (mid, there, moved) = first.onward id job at in
        let (last, found, moved_on) = then_on.onward id mid there in
        (last, found, Onward-trans moved moved_on);
  }

  -- A transaction that keeps the tables coherent, from any coherent ones, and moves the jobs on.
  pub record Advances (db next : Database) : Type 0 where
    pub coherent : IsCoherent db → IsCoherent next
    pub evolves : IsCoherent db → Evolves db next

  -- What the step does may depend on the coherence of the tables before it.
  pub Advances-given : (db next : Database) → (IsCoherent db → Advances db next) → Advances db next
  Advances-given db next step = record {
    coherent = λ h. (step h).coherent h;
    evolves = λ h. (step h).evolves h;
  }

  pub Advances-refl : (db : Database) → Advances db db
  Advances-refl db = record { coherent = λ h. h; evolves = λ h. Evolves-refl db }

  pub Advances-trans : (a b c : Database) → Advances a b → Advances b c → Advances a c
  Advances-trans a b c first then_on = record {
    coherent = λ h. then_on.coherent (first.coherent h);
    evolves = λ h. Evolves-trans a b c (first.evolves h) (then_on.evolves (first.coherent h));
  }

  -- Tables of jobs and attempts that are the same are so in all this.
  pub record SameQueue (db next : Database) : Type 0 where
    pub jobs : next.jobs ≡ db.jobs
    pub attempts : next.attempts ≡ db.attempts

  pub SameQueue-refl : (db : Database) → SameQueue db db
  SameQueue-refl db = record { jobs = refl; attempts = refl }

  pub SameQueue-trans : {a b c : Database} → SameQueue a b → SameQueue b c → SameQueue a c
  SameQueue-trans p q = record { jobs = q.jobs ∙ p.jobs; attempts = q.attempts ∙ p.attempts }

  pub SameQueue-Advances : {db next : Database} → SameQueue db next → Advances db next
  SameQueue-Advances {db} {next} same = record {
    coherent = λ h. record {
      keyed = rw same.jobs h.keyed;
      tracked = λ id job at. rw same.attempts (h.tracked id job (rw same.jobs at at));
      legal = λ id job at. h.legal id job (rw same.jobs at at);
      untried = λ id at. rw same.attempts (h.untried id (rw same.jobs at at));
    };
    evolves = λ h. record { onward = λ id job at. (job, rw same.jobs at, Onward-refl job) };
  }

  -- Nothing changes in the jobs that are there, but there may be new ones.
  pub record Grows (db next : Database) : Type 0 where
    pub advances : Advances db next
    pub kept :
        (id : ℕ) (job : Job) → find_job id db.jobs ≡ some job → find_job id next.jobs ≡ some job
    pub attempts : next.attempts ≡ db.attempts

  pub SameQueue-Grows : {db next : Database} → SameQueue db next → Grows db next
  SameQueue-Grows same = record {
    advances = SameQueue-Advances same;
    kept = λ id job at. rw same.jobs at;
    attempts = same.attempts;
  }

  pub Grows-refl : (db : Database) → Grows db db
  Grows-refl db = SameQueue-Grows (SameQueue-refl db)

  pub Grows-trans : (a b c : Database) → Grows a b → Grows b c → Grows a c
  Grows-trans a b c first then_on = record {
    advances = Advances-trans a b c first.advances then_on.advances;
    kept = λ id job at. then_on.kept id job (first.kept id job at);
    attempts = then_on.attempts ∙ first.attempts;
  }
