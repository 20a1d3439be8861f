-- ===== src/Queue/Claiming/Exclusive.antt =====
-- A claim takes the first free job, and never one whose lease is active
-- (crates/db/src/jobs/claiming.rs).
use pixiv_archive.Prelude.{
  ℕ, Bool, true, not, Option, some, ◌≡◌, ◌≢◌, sym, ap, ◌∙◌, ok, and_split, arith,
}
use pixiv_archive.Prelude.Int.{ℤ}
use pixiv_archive.Job.Selection.{JobQuotaSelection}
use pixiv_archive.Queue.Store.{Documents, Units, Database, Job, JobLease}
use pixiv_archive.Queue.Table.{same_state, find_job}
use pixiv_archive.Queue.Transitions.{holds_lease}
use pixiv_archive.Queue.Claiming.{can_claim, lease_expired, claim_in_tx}
use pixiv_archive.Queue.Claiming.Answers.{IsClaim, claim_in_tx_lem}
use pixiv_archive.Queue.Coherence.{IsCoherent}

module _ ⦃J : Documents⦄ where
  some_injective : {a b : Job} → some a ≡ some b → a ≡ b
  some_injective h = cc

  held-can_claim :
      (now : ℕ) (selection : JobQuotaSelection) (lease : JobLease) (job : Job)
      → holds_lease now lease job ≡ true
      → can_claim now selection job ≡ true
      → ⊥
  unfolding holds_lease can_claim lease_expired same_state
  held-can_claim now selection lease job held free = ground arith

module _ ⦃J : Documents⦄ ⦃U : Units⦄ where
  pub claim_in_tx-IsClaim :
      (locked : ℕ → Bool) (now owner : ℕ) (selection : JobQuotaSelection) (duration : ℤ)
      (o : Option Job) (db next : Database)
      → IsCoherent db
      → claim_in_tx locked now owner selection duration db ≡ ok (o, next)
      → IsClaim locked now owner selection duration db o next
  claim_in_tx-IsClaim locked now owner selection duration o db next coherent h =
      (claim_in_tx_lem locked now owner selection duration o db next h coherent).0

  -- From coherent tables a claim does not take a job whose lease is active at that moment.
  pub claim_respects_lease :
      (locked : ℕ → Bool) (now owner : ℕ) (selection : JobQuotaSelection) (duration : ℤ)
      (lease : JobLease) (job row : Job) (db next : Database)
      → IsCoherent db
      → find_job lease.job_id db.jobs ≡ some job
      → holds_lease now lease job ≡ true
      → claim_in_tx locked now owner selection duration db ≡ ok (some row, next)
      → row.id ≢ lease.job_id
  claim_respects_lease locked now owner selection duration lease job row db next coherent at held h
        same =
      let (microseconds, long, began) =
        claim_in_tx-IsClaim locked now owner selection duration (some row) db next coherent h in
      let there : find_job began.chosen.id db.jobs ≡ some began.chosen =
        began.is_choice.1 coherent.keyed in
      let id : began.chosen.id ≡ lease.job_id = sym (ap (λ (j : Job). j.id) began.is_row) ∙ same in
      let is : began.chosen ≡ job = some_injective (sym there ∙ (rw id at)) in
      held-can_claim now selection lease job held (
        rw is at
          (and_split (can_claim now selection began.chosen) (not (locked began.chosen.id))
            began.is_choice.0).0)
