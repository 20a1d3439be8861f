-- ===== src/Queue/Coherence/Shapes.antt =====
-- The shapes that the transactions of the queue have: a row is written and its attempt ends, the
-- row is written alone, or it is written and its next attempt begins.
use pixiv_archive.Prelude.{
  ℕ, ◌+◌, List, [], ◌∷◌, ◌++◌, Bool, true, false, some, ◌==◌, ◌≡◌, refl, ◌∙◌, ap,
}
use pixiv_archive.Queue.Store.{Documents, Units, Database, Job, Attempt}
use pixiv_archive.Queue.Table.{find_job, is_running, passes_checks, out_of_range}
use pixiv_archive.Queue.Table.Rows.{Wrote, find_job-id, row_error-eq-none}
use pixiv_archive.Queue.Attempts.{numbers, open_numbers, is_open, end_where, count_where}
use pixiv_archive.Queue.Attempts.Numbers.{Ends, numbers-end_where, open_numbers-end_other}
use pixiv_archive.Queue.Attempts.Effects.{close_tracked, insert_tracked, insert_others}
use pixiv_archive.Queue.Coherence.{IsTracked, Onward, Advances}
use pixiv_archive.Queue.Coherence.Update.{IsUpdate-Advances}

module _ ⦃J : Documents⦄ ⦃U : Units⦄ (id : ℕ) (test : Job → Bool) (change : Job → Job)
    (db : Database) (written : Job) (mid : Database)
    (same_id : (job : Job) → (change job).id ≡ job.id)
    (wrote : Wrote id test change db written mid) where
  pub written_id : written.id ≡ id
  written_id =
      ap (λ job. job.id) wrote.is_change
      ∙ (same_id wrote.old ∙ find_job-id id db.jobs wrote.old wrote.found)

  pub found_old : find_job written.id db.jobs ≡ some wrote.old
  found_old = rw written_id wrote.found

  pub written_legal : (passes_checks written ≡ true) × (out_of_range written ≡ false)
  written_legal =
      let (fits, passes) = row_error-eq-none written db.jobs wrote.let_in in (passes, fits)

  -- The row alone, with its number of attempts.
  pub write_Advances :
      Onward wrote.old written
      → written.attempts ≡ wrote.old.attempts
      → is_running written.state ≡ is_running wrote.old.state
      → Advances db mid
  write_Advances onward attempts active = IsUpdate-Advances db mid wrote.old written (record {
    found = found_old;
    jobs = ap (λ (tables : Database). tables.jobs) wrote.after;
    legal = written_legal;
    onward = onward;
    tracked = λ t. rw (attempts, active, wrote.after) t;
    others = λ other apart. rw wrote.after (refl, refl);
  })

  -- A row that was running and is not any more, and the end of its attempt.
  pub release_Advances :
      (n : ℕ) (ending : Attempt → Attempt) (next : Database)
      → Ends ending
      → is_running wrote.old.state ≡ true
      → is_running written.state ≡ false
      → Onward wrote.old written
      → written.attempts ≡ wrote.old.attempts
      → count_where (is_open id n) mid.attempts ≡ 1
      → next ≡ record mid { attempts = end_where (is_open id n) ending mid.attempts }
      → Advances db next
  release_Advances n ending next ends was_active idle onward attempts one closed =
      let same : mid.attempts ≡ db.attempts =
        ap (λ (tables : Database). tables.attempts) wrote.after in
      let after : next.attempts ≡ end_where (is_open id n) ending db.attempts =
        ap (λ (tables : Database). tables.attempts) closed
        ∙ ap (end_where (is_open id n) ending) same in
      IsUpdate-Advances db next wrote.old written (record {
        found = found_old;
        jobs =
            ap (λ (tables : Database). tables.jobs) closed
            ∙ ap (λ (tables : Database). tables.jobs) wrote.after;
        legal = written_legal;
        onward = onward;
        tracked = λ t.
            rw (idle, after, attempts, written_id)
              (close_tracked id n wrote.old.attempts ending db.attempts ends (rw same at one)
                (rw (was_active, written_id) at t));
        others = λ other apart. rw after (
          numbers-end_where (is_open id n) ending ends other db.attempts,
          open_numbers-end_other id n ending ends other db.attempts (rw written_id at apart),
        );
      })

  -- A row that begins its next attempt, after its last one has ended if it was running.
  pub begin_Advances :
      (rows : List Attempt) (attempt : Attempt) (next : Database)
      → (IsTracked id wrote.old.attempts (is_running wrote.old.state) db.attempts
          → IsTracked id wrote.old.attempts false rows)
      → ((other : ℕ)
          → (id == other) ≡ false
          → (numbers other rows ≡ numbers other db.attempts)
            × (open_numbers other rows ≡ open_numbers other db.attempts))
      → is_running written.state ≡ true
      → Onward wrote.old written
      → written.attempts ≡ wrote.old.attempts + 1
      → attempt.job_id ≡ id
      → attempt.attempt_number ≡ wrote.old.attempts + 1
      → is_running attempt.state ≡ true
      → next.jobs ≡ mid.jobs
      → next.attempts ≡ rows ++ attempt ∷ []
      → Advances db next
  begin_Advances rows attempt next ended apart_rows active onward attempts job number runs jobs
        after =
      IsUpdate-Advances db next wrote.old written (record {
        found = found_old;
        jobs = jobs ∙ ap (λ (tables : Database). tables.jobs) wrote.after;
        legal = written_legal;
        onward = onward;
        tracked = λ t.
            rw (active, after, attempts, written_id)
              (insert_tracked id wrote.old.attempts attempt rows job number runs
                (ended (rw written_id at t)));
        others = λ other apart.
            let away : (id == other) ≡ false = rw written_id at apart in
            let (all, opened) = insert_others id other attempt rows job away in
            let (all', opened') = apart_rows other away in
            (rw after (all ∙ all'), rw after (opened ∙ opened'));
      })
