-- ===== src/Queue/Transitions/Moves.antt =====
-- The transitions of jobs that do not run: retries and the storage gate, and the cancellation, which
-- ends the attempt of a job that runs (crates/db/src/jobs/transitions.rs).
use pixiv_archive.Prelude.{ℕ, List, [], ◌∷◌, Bool, true, Option, none, some, ◌≡◌, sym, ok}
use pixiv_archive.Queue.Store.{Documents, Units, Database, Job}
use pixiv_archive.Queue.Transact.{succeeded, pure-eq-ok, gets-eq-ok}
use pixiv_archive.Queue.Table.{is_running, update_job, update_each, update_jobs}
use pixiv_archive.Queue.Table.Rows.{Wrote, update_job-eq-ok, update_job-eq-none}
use pixiv_archive.Queue.Coherence.{Onward, Advances, Advances-refl, Advances-trans}
use pixiv_archive.Queue.Coherence.Shapes.{write_Advances}

module _ ⦃J : Documents⦄ where
  -- A change of the rows that pass a test which does not begin or end an attempt.
  pub record IsMove (test : Job → Bool) (change : Job → Job) : Type 0 where
    pub same_id : (job : Job) → (change job).id ≡ job.id
    pub onward : (job : Job) → test job ≡ true → Onward job (change job)
    pub attempts : (job : Job) → (change job).attempts ≡ job.attempts
    pub active :
        (job : Job) → test job ≡ true → is_running (change job).state ≡ is_running job.state

module _ ⦃J : Documents⦄ ⦃U : Units⦄ (test : Job → Bool) (change : Job → Job)
    (move : IsMove test change) where
  pub Wrote-Advances :
      (id : ℕ) (db next : Database) (written : Job)
      → Wrote id test change db written next
      → Advances db next
  Wrote-Advances id db next written w =
      write_Advances id test change db written next move.same_id w
        (rw w.is_change (move.onward w.old w.tested)) (rw w.is_change (move.attempts w.old))
        (rw w.is_change (move.active w.old w.tested))

  pub update_job-Advances :
      (id : ℕ) (db next : Database) (o : Option Job)
      → update_job id test change db ≡ ok (o, next)
      → Advances db next
  update_job-Advances id db next none h =
      rw (update_job-eq-none id test change db next h) (Advances-refl db)
  update_job-Advances id db next (some written) h =
      Wrote-Advances id db next written (update_job-eq-ok id test change db next written h)

  update_each-Advances :
      (ids : List ℕ) (db next : Database) (rows : List Job)
      → update_each ids test change db ≡ ok (rows, next)
      → Advances db next
  unfolding update_each
  update_each-Advances [] db next rows h = rw (sym (pure-eq-ok _ _ h).1) (Advances-refl db)
  update_each-Advances (id ∷ ids) db next rows h =
      let (o, mid, first, rest) = succeeded _ _ h in
      let (others, last, later, answered) = succeeded _ _ rest in
      let (is, end) = pure-eq-ok _ _ answered in
      Advances-trans db mid next (update_job-Advances id db mid o first)
        (rw end at (update_each-Advances ids mid last others later))

  pub update_jobs-Advances :
      (db next : Database) (rows : List Job)
      → update_jobs test change db ≡ ok (rows, next)
      → Advances db next
  unfolding update_jobs
  update_jobs-Advances db next rows h =
      let (ids, mid, got, later) = succeeded _ _ h in
      let (at, same) = gets-eq-ok _ got in
      rw (sym same) at (update_each-Advances ids mid next rows later)
