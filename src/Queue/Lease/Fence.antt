-- ===== src/Queue/Lease/Fence.antt =====
-- A lease writes at most once, and not after its job has been claimed again.
use pixiv_archive.Prelude.{
  ℕ, ◌+◌, ◌<◌, ◌≤◌, List, Bool, true, Option, some, String, ==_iff, ◌≡◌, ◌≢◌, sym, ap, ◌∙◌, ok,
  arith,
}
use pixiv_archive.Prelude.Int.{ℤ}
use pixiv_archive.Job.Selection.{JobQuotaSelection}
use pixiv_archive.Queue.Store.{Documents, Units, Database, Tx, Job, JobLease}
use pixiv_archive.Queue.Table.{find_job}
use pixiv_archive.Queue.Transitions.{
  JobCompletion, holds_lease, complete_in_tx, wait_for_storage, fail,
}
use pixiv_archive.Queue.Transitions.Ends.{
  holds_lease_parts, complete-EndedLease, wait_for_storage-EndedLease, fail-EndedLease,
}
use pixiv_archive.Queue.Accounts.{block_account_for_job}
use pixiv_archive.Queue.Claiming.{claim_in_tx}
use pixiv_archive.Queue.Claiming.Answers.{claim_in_tx_lem}
use pixiv_archive.Queue.Coherence.{IsCoherent, Onward, revised, untouched, Advances}
use pixiv_archive.Queue.Lease.{UsesLease, EndedLease-UsesLease, block_account_for_job-UsesLease}
use pixiv_archive.Queue.Requests.{Request, run}
use pixiv_archive.Queue.Requests.Invariant.{run-IsCoherent, run-Evolves}

module _ ⦃J : Documents⦄ ⦃U : Units⦄ where
  -- The writes by which a worker ends its attempt.
  pub data LeaseWrite : Type 0 where
    completes : JobCompletion → LeaseWrite
    waits_for_storage : LeaseWrite
    fails : String → Bool → Option ℕ → Option String → LeaseWrite
    blocks_account : String → Option String → LeaseWrite

  unfoldable pub lease_write : LeaseWrite → ℕ → JobLease → Tx (Unit {0})
  lease_write (completes completion) now lease = complete_in_tx now lease completion
  lease_write waits_for_storage now lease = wait_for_storage now lease
  lease_write (fails error_class retryable next_retry_at message) now lease =
      fail now lease error_class retryable next_retry_at message
  lease_write (blocks_account error_class message) now lease =
      block_account_for_job now lease error_class message

  pub lease_write-UsesLease :
      (write : LeaseWrite) (now : ℕ) (lease : JobLease) (a : Unit {0}) (db next : Database)
      → lease_write write now lease db ≡ ok (a, next)
      → IsCoherent db
      → UsesLease now lease db next × Advances db next
  unfolding lease_write
  lease_write-UsesLease (completes completion) now lease a db next h coherent =
      let e = complete-EndedLease now lease completion a db next h in
      (EndedLease-UsesLease now _ db next e, e.advances)
  lease_write-UsesLease waits_for_storage now lease a db next h coherent =
      let e = wait_for_storage-EndedLease now lease a db next h in
      (EndedLease-UsesLease now _ db next e, e.advances)
  lease_write-UsesLease (fails error_class retryable next_retry_at message) now lease a db next h
        coherent =
      let e = fail-EndedLease now lease error_class retryable next_retry_at message a db next h in
      (EndedLease-UsesLease now _ db next e, e.advances)
  lease_write-UsesLease (blocks_account error_class message) now lease a db next h coherent =
      block_account_for_job-UsesLease now lease error_class message a db next h coherent

  some_injective : {a b : Job} → some a ≡ some b → a ≡ b
  some_injective h = cc

  at_least :
      (n : ℕ) (job later : Job)
      → n < job.resource_revision
      → Onward job later
      → n < later.resource_revision
  at_least n job later h (revised r a) = omega arith
  at_least n job later h (untouched e f s o) = omega arith

  never_less :
      (job later : Job) → Onward job later → job.resource_revision ≤ later.resource_revision
  never_less job later (revised r a) = omega arith
  never_less job later (untouched e f s o) = omega arith

  held_revision :
      (now : ℕ) (lease : JobLease) (job : Job)
      → holds_lease now lease job ≡ true
      → job.resource_revision ≡ lease.resource_revision
  held_revision now lease job held =
      (==_iff job.resource_revision lease.resource_revision).0
        (holds_lease_parts now lease job held).0

  -- Once the row has a larger revision than the lease, the lease is of no use.
  pub stale_lease :
      (write : LeaseWrite) (now : ℕ) (lease : JobLease) (requests : List Request) (job : Job)
      (b : Unit {0}) (db last : Database)
      → IsCoherent db
      → find_job lease.job_id db.jobs ≡ some job
      → lease.resource_revision < job.resource_revision
      → lease_write write now lease (run requests db) ≡ ok (b, last)
      → ⊥
  stale_lease write now lease requests job b db last coherent at larger h =
      let (later, there, moved) = (run-Evolves requests db coherent).onward lease.job_id job at in
      let (uses, advances) =
        lease_write-UsesLease write now lease b (run requests db) last h
          (run-IsCoherent requests db coherent) in
      let same : uses.old ≡ later = some_injective (sym uses.found ∙ there) in
      let held = held_revision now lease later (rw same at uses.held) in
      let more = at_least lease.resource_revision job later larger moved in omega arith

  -- In coherent tables a lease ends at most one attempt: once a completion, a failure, a wait for
  -- storage or a block of the account has succeeded under a lease, none of these succeeds under the
  -- same lease again, at whatever time and after whatever sequence of the requests of `Request`.
  pub lease_write_once :
      (first second : LeaseWrite) (now later : ℕ) (lease : JobLease) (requests : List Request)
      (a b : Unit {0}) (db mid last : Database)
      → IsCoherent db
      → lease_write first now lease db ≡ ok (a, mid)
      → lease_write second later lease (run requests mid) ≢ ok (b, last)
  lease_write_once first second now later lease requests a b db mid last coherent h again =
      let (uses, advances) = lease_write-UsesLease first now lease a db mid h coherent in
      let held = held_revision now lease uses.old uses.held in
      let larger = uses.larger in
      stale_lease second later lease requests uses.written b mid last (advances.coherent coherent)
        uses.after (omega arith) again

  -- From coherent tables, once a job that was held under a lease is claimed, after any sequence of
  -- the requests of `Request`, no write succeeds under that lease any more, at whatever time and
  -- after whatever further sequence of these requests.
  pub claim_fences :
      (locked : ℕ → Bool) (now owner : ℕ) (selection : JobQuotaSelection) (duration : ℤ)
      (write : LeaseWrite) (earlier later : ℕ) (lease : JobLease) (before after : List Request)
      (job row : Job) (b : Unit {0}) (db mid last : Database)
      → IsCoherent db
      → find_job lease.job_id db.jobs ≡ some job
      → holds_lease earlier lease job ≡ true
      → claim_in_tx locked now owner selection duration (run before db) ≡ ok (some row, mid)
      → row.id ≡ lease.job_id
      → lease_write write later lease (run after mid) ≢ ok (b, last)
  claim_fences locked now owner selection duration write earlier later lease before after job row b
        db mid last coherent at held h same again =
      let here = run-IsCoherent before db coherent in
      let (current, there, moved) = (run-Evolves before db coherent).onward lease.job_id job at in
      let ((microseconds, long, began), advances) =
        claim_in_tx_lem locked now owner selection duration (some row) (run before db) mid h here in
      let chosen_at : find_job began.chosen.id (run before db).jobs ≡ some began.chosen =
        began.is_choice.1 here.keyed in
      let id : began.chosen.id ≡ lease.job_id = sym (ap (λ (j : Job). j.id) began.is_row) ∙ same in
      let is : began.chosen ≡ current = some_injective (sym chosen_at ∙ (rw id there)) in
      let more : row.resource_revision ≡ current.resource_revision + 1 =
        ap (λ (j : Job). j.resource_revision) began.is_row
        ∙ ap (λ (j : Job). j.resource_revision + 1) is in
      let at_first = held_revision earlier lease job held in
      let kept = never_less job current moved in
      stale_lease write later lease after row b mid last (advances.coherent here)
        (rw (← same) began.after) (omega arith) again
