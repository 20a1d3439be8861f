-- ===== src/Queue/Lease/Live.antt =====
-- A worker whose lease is active can complete its job (crates/db/src/jobs/transitions.rs).
use pixiv_archive.Prelude.{
  ℕ, ◌+◌, ◌<◌, ◌≤◌, List, [], ◌∷◌, Bool, true, false, none, some, ◌≡◌, refl, sym, ◌∙◌, ◌++◌, ok,
  inl, inr, Any, All, arith,
}
use mathlib.Core.Path.{subst}
use pixiv_archive.Job.State.{completed}
use pixiv_archive.Queue.Store.{
  Documents, Units, Database, Job, JobLease, Attempt, job_completed, pure, gets, or_throw, throw_if,
  append_event,
}
use pixiv_archive.Queue.Table.{
  same_state, max_i64, find_job, replace_job, row_error, out_of_range, passes_checks,
  is_active_purge, has_purge_twin, running_lease_check, retry_time_check, waiting_account_check,
  waiting_storage_check,
}
use pixiv_archive.Queue.Attempts.{
  Ending, ended, numbers, open_numbers, highest, is_open, end_where, count_where, lets_in,
  attempt_checks, update_attempts, close_attempt, close_running_attempt,
}
use pixiv_archive.Queue.Attempts.Numbers.{count, count_where-is_open, open_numbers-sub, highest_lem}
use pixiv_archive.Queue.Transitions.{
  holds_lease, in_terminal_state, set_terminal_state, without_error, JobCompletion, complete_linked,
  complete_in_tx,
}
use pixiv_archive.Queue.Transitions.Ends.{holds_lease-running, ended-Ends}
use pixiv_archive.Queue.Insertion.Grows.{Growing-complete_linked}
use pixiv_archive.Queue.Transact.{then_ok}
use pixiv_archive.Queue.Table.Rows.{update_job_accepts, find_job-id, find-replace_self}
use pixiv_archive.Queue.Attempts.Effects.{close_tracked}
use pixiv_archive.Queue.Coherence.{IsTracked, IsCoherent}

-- An ending that the table lets in, for attempts that have started.
pub ended_lets_in :
    (now id n : ℕ) (ending : Ending) (rows : List Attempt)
    → ending.state ≡ completed
    → 0 < n
    → All (λ attempt. attempt.started_at ≤ now) rows
    → lets_in (is_open id n) (ended ending now) rows ≡ true
unfolding lets_in attempt_checks
ended_lets_in now id n ending [] is pos started = refl
ended_lets_in now id n ending (attempt ∷ rest) is pos started =
    ground (arith, ended_lets_in now id n ending rest, started.0)

count_self : (n : ℕ) → count n (n ∷ []) ≡ 1
count_self n = ground arith

below_member : (k : ℕ) (ns : List ℕ) → All (λ n. (0 < n) × (n ≤ k)) ns → Any (λ n. n ≡ k) ns → 0 < k
below_member k [] h m = absurd m
below_member k (n ∷ ns) h (inl e) = omega (arith, h.0.0)
below_member k (n ∷ ns) h (inr m) = below_member k ns h.1 m

module _ ⦃J : Documents⦄ where
  completed-purge : (job : Job) → job.state ≡ completed → is_active_purge job ≡ false
  unfolding is_active_purge same_state
  completed-purge job is = rw is (ground arith)

  no_twin :
      (job : Job) (jobs : List Job) → is_active_purge job ≡ false → has_purge_twin job jobs ≡ false
  unfolding has_purge_twin
  no_twin job [] h = refl
  no_twin job (other ∷ rest) h = rw h (no_twin job rest h)

module _ ⦃J : Documents⦄ ⦃U : Units⦄ where
  -- The row of a completed job is accepted, unless its revision overflows.
  completed_row :
      (now : ℕ) (lease : JobLease) (job : Job) (jobs : List Job)
      → out_of_range job ≡ false
      → job.resource_revision < max_i64
      → row_error (in_terminal_state now (without_error lease completed) job) jobs ≡ none
  unfolding row_error out_of_range passes_checks running_lease_check retry_time_check
      waiting_account_check waiting_storage_check same_state
  completed_row now lease job jobs fits small =
      rw
        (no_twin (in_terminal_state now (without_error lease completed) job) jobs
          (completed-purge (in_terminal_state now (without_error lease completed) job) refl))
        (ground arith)

  abbrev completion : Ending
  completion = record { state = completed; error_class = none; retryable = none; message = none }

  update_attempts_accepts :
      (test : Attempt → Bool) (change : Attempt → Attempt) (db : Database)
      → lets_in test change db.attempts ≡ true
      → update_attempts test change db
        ≡ ok (
          count_where test db.attempts,
          record db { attempts = end_where test change db.attempts },
        )
  unfolding update_attempts
  update_attempts_accepts test change db fine = ground arith

  abbrev completed_attempts : ℕ → ℕ → ℕ → List Attempt → List Attempt
  completed_attempts now id number rows = end_where (is_open id number) (ended completion now) rows

  -- The attempt of a running job can be closed.
  close_accepts :
      (now id attempts : ℕ) (db : Database)
      → IsTracked id attempts true db.attempts
      → All (λ attempt. attempt.started_at ≤ now) db.attempts
      → close_running_attempt now id completion db
        ≡ ok (tt, record db { attempts = completed_attempts now id attempts db.attempts })
  unfolding close_running_attempt close_attempt gets throw_if
  close_accepts now id attempts db tracked started =
      let member : Any (λ n. n ≡ attempts) (numbers id db.attempts) =
        open_numbers-sub id attempts db.attempts (rw tracked.opened (inl refl)) in
      let top : highest (numbers id db.attempts) ≡ attempts =
        highest_lem attempts (numbers id db.attempts) tracked.bounded member in
      let positive : 0 < attempts =
        below_member attempts (numbers id db.attempts) tracked.bounded member in
      let one : count_where (is_open id attempts) db.attempts ≡ 1 =
        count_where-is_open id attempts db.attempts ∙ (rw tracked.opened (count_self attempts)) in
      then_ok _ _ {mid = db} {a = highest (numbers id db.attempts)} refl (
        rw top (
          then_ok _ _
            (update_attempts_accepts (is_open id attempts) (ended completion now) db
              (ended_lets_in now id attempts completion db.attempts refl positive started))
            (rw one refl)))

  -- The tables once the row is completed and its attempt is closed.
  abbrev pub completed_tables : ℕ → JobLease → Job → Database → Database
  completed_tables now lease job db = record db {
    jobs = replace_job (in_terminal_state now (without_error lease completed) job) db.jobs;
    attempts = completed_attempts now lease.job_id job.attempts db.attempts;
  }

  -- The first statements of the completion.
  terminates :
      (now : ℕ) (lease : JobLease) (job : Job) (db : Database)
      → IsCoherent db
      → find_job lease.job_id db.jobs ≡ some job
      → holds_lease now lease job ≡ true
      → job.resource_revision < max_i64
      → All (λ attempt. attempt.started_at ≤ now) db.attempts
      → set_terminal_state now (without_error lease completed) db
        ≡ ok (job.resource_revision + 1, completed_tables now lease job db)
  unfolding set_terminal_state or_throw pure
  terminates now lease job db coherent found held small started =
      let written : Job = in_terminal_state now (without_error lease completed) job in
      let mid : Database = record db { jobs = replace_job written db.jobs } in
      let closed : Database = completed_tables now lease job db in
      let tracked : IsTracked lease.job_id job.attempts true db.attempts =
        rw (holds_lease-running now lease job held) at (coherent.tracked lease.job_id job found) in
      then_ok _ _ {mid = mid} {a = some written}
        (update_job_accepts lease.job_id (holds_lease now lease)
          (in_terminal_state now (without_error lease completed)) db job found held
          (completed_row now lease job db.jobs ((coherent.legal lease.job_id job found).1) small))
        (then_ok _ _ {mid = mid} {a = written} refl (
          then_ok _ _ {mid = closed} {a = tt}
            (close_accepts now lease.job_id job.attempts mid tracked started) refl))

  none_open :
      (now : ℕ) (lease : JobLease) (job : Job) (db : Database)
      → IsCoherent db
      → find_job lease.job_id db.jobs ≡ some job
      → holds_lease now lease job ≡ true
      → open_numbers lease.job_id (completed_tables now lease job db).attempts ≡ []
  none_open now lease job db coherent found held =
      let tracked : IsTracked lease.job_id job.attempts true db.attempts =
        rw (holds_lease-running now lease job held) at (coherent.tracked lease.job_id job found) in
      (close_tracked lease.job_id job.attempts job.attempts (ended completion now) db.attempts
        (ended-Ends completion now refl)
        (count_where-is_open lease.job_id job.attempts db.attempts
          ∙ (rw tracked.opened (count_self job.attempts)))
        tracked).opened

  -- From coherent tables in which no attempt has begun after the present moment, a worker whose lease
  -- is active can complete its job, as long as the revision of the job is below the largest `bigint`
  -- and the job's import run or unit, if the completion has one to end, can be completed in the tables
  -- in which the row is completed and its attempt closed: the transaction succeeds, the job is
  -- completed with the next revision, and none of its attempts runs any more.
  pub complete_in_tx_total :
      (now : ℕ) (lease : JobLease) (job : Job) (completion : JobCompletion) (db linked : Database)
      → IsCoherent db
      → find_job lease.job_id db.jobs ≡ some job
      → holds_lease now lease job ≡ true
      → job.resource_revision < max_i64
      → All (λ attempt. attempt.started_at ≤ now) db.attempts
      → complete_linked now lease.job_id completion (completed_tables now lease job db)
        ≡ ok (tt, linked)
      → (next : Database) × (complete_in_tx now lease completion db ≡ ok (tt, next))
        × (find_job lease.job_id next.jobs
            ≡ some (in_terminal_state now (without_error lease completed) job))
        × (open_numbers lease.job_id next.attempts ≡ [])
  unfolding complete_in_tx append_event
  complete_in_tx_total now lease job completion db linked coherent found held small started ends =
      let written : Job = in_terminal_state now (without_error lease completed) job in
      let id = find_job-id lease.job_id db.jobs job found in
      let grows =
        (Growing-complete_linked now lease.job_id completion).at (completed_tables now lease job db)
          tt linked ends in
      (
        record linked {
          events =
              linked.events
              ++ record {
                resource_id = lease.job_id;
                payload = job_completed (job.resource_revision + 1);
              }
                ∷ [];
        },
        then_ok _ _ {mid = completed_tables now lease job db} {a = job.resource_revision + 1}
            (terminates now lease job db coherent found held small started)
            (then_ok _ _ {mid = linked} {a = tt} ends refl),
        grows.kept lease.job_id written (
            subst (λ key. find_job key (replace_job written db.jobs) ≡ some written) id
              (find-replace_self written job db.jobs
                (subst (λ key. find_job key db.jobs ≡ some job) (sym id) found))),
        rw grows.attempts (none_open now lease job db coherent found held),
      )
