-- ===== src/Queue/Lease/Status.antt =====
-- What a worker learns of its lease (crates/db/src/jobs/claiming.rs).
use pixiv_archive.Prelude.{
  ℕ, Bool, true, false, not, none, some, ◌≡◌, ◌≢◌, ◌↔◌, refl, sym, ◌∙◌, ok, err, inl, inr,
  Option-cases, arith,
}
use pixiv_archive.Job.Retry.{DbError}
use pixiv_archive.Queue.Store.{Documents, Units, Database, Job, JobLease, gets, or_throw, throw_if}
use pixiv_archive.Queue.Transact.{succeeded, then_ok, gets-eq-ok, or_throw-eq-ok, throw_if-eq-ok}
use pixiv_archive.Queue.Table.{same_state, find_job, passes_checks, running_lease_check}
use pixiv_archive.Queue.Transitions.{holds_lease, lock_active_lease_in_tx}
use pixiv_archive.Queue.Claiming.{ClaimedJob, lease_of, active, status_of_row, lease_status}
use pixiv_archive.Queue.Coherence.{IsCoherent}

not-false : (b : Bool) → not b ≡ false → b ≡ true
not-false b h = ground arith

module _ ⦃J : Documents⦄ ⦃U : Units⦄ where
  active_row :
      (now : ℕ) (claimed : ClaimedJob) (job : Job)
      → status_of_row now claimed job ≡ ok active
      → (holds_lease now (lease_of claimed) job ≡ true) × (job.attempts ≡ claimed.attempt_number)
  unfolding status_of_row holds_lease lease_of same_state
  active_row now claimed job h = (ground arith, ground arith)

  held_row :
      (now : ℕ) (claimed : ClaimedJob) (job : Job)
      → holds_lease now (lease_of claimed) job ≡ true
      → job.attempts ≡ claimed.attempt_number
      → status_of_row now claimed job ≡ ok active
  unfolding status_of_row holds_lease lease_of same_state
  held_row now claimed job h same = ground arith

  known_row :
      (now : ℕ) (claimed : ClaimedJob) (job : Job) (e : DbError)
      → running_lease_check job ≡ true
      → status_of_row now claimed job ≢ err e
  unfolding status_of_row running_lease_check same_state
  known_row now claimed job e h = ground arith

  some_injective : {a b : Job} → some a ≡ some b → a ≡ b
  some_injective h = cc

  lease_check : (job : Job) → passes_checks job ≡ true → running_lease_check job ≡ true
  unfolding passes_checks
  lease_check job h = ground arith

  lock_accepts :
      (now : ℕ) (lease : JobLease) (job : Job) (db : Database)
      → find_job lease.job_id db.jobs ≡ some job
      → holds_lease now lease job ≡ true
      → lock_active_lease_in_tx now lease db ≡ ok (tt, db)
  unfolding lock_active_lease_in_tx gets or_throw throw_if
  lock_accepts now lease job db found held =
      then_ok _ _ {mid = db} {a = find_job lease.job_id db.jobs} refl
        (rw found (then_ok _ _ {mid = db} {a = job} refl (rw held refl)))

  lock_holds :
      (now : ℕ) (lease : JobLease) (a : Unit {0}) (db next : Database)
      → lock_active_lease_in_tx now lease db ≡ ok (a, next)
      → (job : Job) × (find_job lease.job_id db.jobs ≡ some job)
        × (holds_lease now lease job ≡ true)
  unfolding lock_active_lease_in_tx
  lock_holds now lease a db next h =
      let (row, db1, got, h1) = succeeded _ _ h in
      let (row_is, same1) = gets-eq-ok _ got in
      let (job, db2, some_row, h2) = succeeded _ _ h1 in
      let (is, same2) = or_throw-eq-ok _ _ some_row in
      let (held, same3) = throw_if-eq-ok _ _ h2 in
      (job, row_is ∙ is, not-false (holds_lease now lease job) held)

  status_of :
      (now : ℕ) (claimed : ClaimedJob) (db : Database) (job : Job)
      → find_job claimed.id db.jobs ≡ some job
      → lease_status now claimed db ≡ status_of_row now claimed job
  unfolding lease_status
  status_of now claimed db job found = ground arith

  status_of_none :
      (now : ℕ) (claimed : ClaimedJob) (db : Database)
      → find_job claimed.id db.jobs ≡ none
      → lease_status now claimed db ≡ err DbError.not_found
  unfolding lease_status
  status_of_none now claimed db found = ground arith

  -- The status of a claimed job is active exactly if its lease can be locked for a write at the same
  -- moment and the job's count of attempts is still the number of the claimed attempt; and from
  -- coherent tables the status is known for every job that there is, the only error being that of a
  -- job that is not there.
  pub lease_status_iff :
      (now : ℕ) (claimed : ClaimedJob) (db : Database)
      → IsCoherent db
      → ((lease_status now claimed db ≡ ok active) ↔ (
          (job : Job) × (find_job claimed.id db.jobs ≡ some job)
          × (job.attempts ≡ claimed.attempt_number)
          × (lock_active_lease_in_tx now (lease_of claimed) db ≡ ok (tt, db))))
        × ((e : DbError)
            → lease_status now claimed db ≡ err e
            → (find_job claimed.id db.jobs ≡ none) × (e ≡ DbError.not_found))
  unfolding lease_of
  lease_status_iff now claimed db coherent = elim (Option-cases (find_job claimed.id db.jobs)) [
    | inl missing ↦ (
      (
        λ h. absurd (
            let e : ok active ≡ err DbError.not_found =
              sym h ∙ status_of_none now claimed db missing in
            cc),
        λ k. absurd (let e : none ≡ some k.0 = sym missing ∙ k.1 in cc),
      ),
      λ e h. (
        missing,
        let same : err DbError.not_found ≡ err e =
              sym (status_of_none now claimed db missing) ∙ h in
            cc,
      ),
    )
    | inr (job, found) ↦ (
      (
        λ h.
            let (held, same) =
              active_row now claimed job (sym (status_of now claimed db job found) ∙ h) in
            (job, found, same, lock_accepts now (lease_of claimed) job db found held),
        λ k.
            let (other, there, held) = lock_holds now (lease_of claimed) tt db db k.3 in
            let is : job ≡ other = some_injective (sym found ∙ there) in
            let is' : job ≡ k.0 = some_injective (sym found ∙ k.1) in
            status_of now claimed db job found ∙ held_row now claimed job (rw is held) (rw is' k.2),
      ),
      λ e h. absurd (
          known_row now claimed job e (lease_check job (coherent.legal claimed.id job found).0)
            (sym (status_of now claimed db job found) ∙ h)),
    )
  ]
