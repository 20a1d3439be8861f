-- ===== src/Queue/Tests/Answers.antt =====
-- The answers of the queue at concrete tables.
use pixiv_archive.Prelude.{
  arith, err, min, ◌++◌, ◌==◌, All, ◌≤◌, ◌<◌, ◌↔◌, ℕ, [], ◌∷◌, true, false, none, some, ok, ◌≡◌,
  ◌≢◌, refl, ◌+◌,
}
use pixiv_archive.Prelude.Int.{pos}
use pixiv_archive.Job.Priority
use pixiv_archive.Job.State
use pixiv_archive.Job.Kind
use pixiv_archive.Subscription.Account
use pixiv_archive.Queue.Store
use pixiv_archive.Queue.Store.{Database, Job}
use pixiv_archive.Queue.Table
use pixiv_archive.Queue.Attempts
use pixiv_archive.Queue.Transitions
use pixiv_archive.Queue.Transitions.{task_only, subscription}
use pixiv_archive.Queue.Claiming
use pixiv_archive.Queue.Claiming.{claimed_row}
use pixiv_archive.Queue.Enqueue
use pixiv_archive.Queue.Insertion
use pixiv_archive.Queue.Store.{NewJob}
use pixiv_archive.Queue.Lease.Live.{completed_tables, complete_in_tx_total}
use pixiv_archive.Queue.Lease.Status.{lease_status_iff}
use pixiv_archive.Queue.Claiming.Exclusive.{claim_respects_lease}
use pixiv_archive.Queue.Enqueue.Once.{enqueue_download_once}
use pixiv_archive.Job.Retry.{DbError}
use pixiv_archive.Queue.Listing
use pixiv_archive.Queue.Listing.Counts.{is_settled, stats_add_up}
use pixiv_archive.Queue.Service
use pixiv_archive.Queue.Service.Retries.{IsApplied, failure_follows_policy}
use pixiv_archive.Job.ErrorClass
use pixiv_archive.Job.Retry
use pixiv_archive.Job.Retry.{Durations, RetryPolicy}
use pixiv_archive.Job.Retry.Laws.{IsDue}
use pixiv_archive.Queue.Requests.{
  to_cancel, to_enqueue, to_enqueue_download, to_claim, to_fail, run,
}
use pixiv_archive.Queue.Requests.Invariant.{run-IsCoherent}
use pixiv_archive.Queue.Tests.{
  demo_documents, demo_units, no_jobs, demo_job, any_kind, claimed, demo_lease, claimed-IsCoherent,
  held_job, holds_claimed, queue_code,
}

attempts_started : All (λ attempt. attempt.started_at ≤ 300) claimed.attempts
unfolding queue_code
attempts_started = (omega arith, tt)

held_small : held_job.resource_revision < 9223372036854775807
unfolding Insertion.first_row
held_small = omega arith

-- The unit of the job is completed, and a pending run puts its job in the queue.
abbrev before_unit : Database
before_unit = completed_tables 300 demo_lease held_job claimed

abbrev next_run : NewJob
next_run = record {
  priority = Priority.manual_import;
  kind = "ranking_collection";
  payload = [];
  pixiv_account_id = some 3;
  available_at = 250;
}

abbrev unit_completed : Database
unit_completed = record before_unit {
  jobs =
      before_unit.jobs
      ++ Insertion.first_row 300 107 next_run Kind.ranking_collection (some Account.normal) ∷ [];
  events =
      before_unit.events
      ++ record { resource_id = 107; payload = Store.job_queued 1 }
        ∷ record { resource_id = 1; payload = Store.subscription_changed 2 }
        ∷ [];
  units = 0;
}

completes_unit :
    Transitions.complete_linked 300 demo_lease.job_id (subscription 4) before_unit
    ≡ ok (tt, unit_completed)
unfolding queue_code
completes_unit = refl

complete_in_tx_total_example :
    (next : Database) × (Transitions.complete_in_tx 300 demo_lease (subscription 4) claimed
      ≡ ok (tt, next))
    × (Table.find_job 7 next.jobs
        ≡ some (
            Transitions.in_terminal_state 300
              (Transitions.without_error demo_lease State.completed)
              held_job))
    × (Attempts.open_numbers 7 next.attempts ≡ [])
complete_in_tx_total_example =
    complete_in_tx_total 300 demo_lease held_job (subscription 4) claimed unit_completed
      claimed-IsCoherent (holds_claimed.0) (holds_claimed.1) held_small attempts_started
      completes_unit

abbrev demo_claim : Claiming.ClaimedJob
demo_claim = record {
  id = 7;
  priority = Priority.manual_import;
  kind = "download_media";
  payload = ("pixiv_work_id", "11") ∷ [];
  state = State.running;
  attempt_number = 1;
  lease_owner = 5;
  lease_expires_at = 60000200;
  resource_revision = 2;
}

lease_status_iff_example :
    ((Claiming.lease_status 300 demo_claim claimed ≡ ok Claiming.active) ↔ (
      (job : Job) × (Table.find_job 7 claimed.jobs ≡ some job)
      × (job.attempts ≡ 1)
      × (Transitions.lock_active_lease_in_tx 300 (Claiming.lease_of demo_claim) claimed
          ≡ ok (tt, claimed))))
    × ((e : DbError)
        → Claiming.lease_status 300 demo_claim claimed ≡ err e
        → (Table.find_job 7 claimed.jobs ≡ none) × (e ≡ DbError.not_found))
lease_status_iff_example = lease_status_iff 300 demo_claim claimed claimed-IsCoherent

active_claimed : Claiming.lease_status 300 demo_claim claimed ≡ ok Claiming.active
unfolding queue_code
active_claimed = refl

-- A second job, which is claimed while the lease of the first is active.
abbrev second_queued : Database
second_queued = run (to_enqueue 250 8 demo_job ∷ []) claimed

abbrev second_claimed : Database
second_claimed = run (to_claim 300 (λ id. false) 6 any_kind (pos 60000000000) ∷ []) second_queued

abbrev second_job : Job
second_job =
    claimed_row 300 6 60000000
      (Insertion.first_row 250 8 demo_job Kind.download_media (some Account.normal))

second_is_claimed :
    (Table.find_job 7 second_queued.jobs ≡ some held_job)
    × (Claiming.claim_in_tx (λ id. false) 300 6 any_kind (pos 60000000000) second_queued
        ≡ ok (some second_job, second_claimed))
unfolding queue_code
second_is_claimed = (refl, refl)

claim_respects_lease_example : second_job.id ≢ 7
claim_respects_lease_example =
    claim_respects_lease (λ id. false) 300 6 any_kind (pos 60000000000) demo_lease held_job
      second_job second_queued second_claimed
      (run-IsCoherent (to_enqueue 250 8 demo_job ∷ []) claimed claimed-IsCoherent)
      (second_is_claimed.0) (holds_claimed.1) (second_is_claimed.1)

abbrev download_queued : Database
download_queued =
    run (to_enqueue_download 100 100 9 none 3 "w" "12" Priority.immediate ∷ []) no_jobs

download_is_queued :
    Enqueue.enqueue_download_if_absent_with_lease 100 100 9 none 3 "w" "12" Priority.immediate
      no_jobs
    ≡ ok (9, download_queued)
unfolding queue_code
download_is_queued = refl

enqueue_download_once_example :
    Enqueue.enqueue_download_if_absent_with_lease 200 200 10 none 3 "w" "12" Priority.manual_import
      download_queued
    ≡ ok (9, download_queued)
enqueue_download_once_example =
    enqueue_download_once 100 100 9 3 200 200 10 3 none "w" "12" "w" Priority.immediate
      Priority.manual_import 9 no_jobs download_queued refl download_is_queued

stats_add_up_example :
    (Listing.stats claimed.jobs).running
      + (Listing.stats claimed.jobs).waiting
      + (Listing.stats claimed.jobs).requires_attention
      + Listing.count_jobs is_settled claimed.jobs
    ≡ (Listing.stats claimed.jobs).total
stats_add_up_example = stats_add_up claimed.jobs

instance abbrev demo_durations : Durations
demo_durations = record {
  Duration = ℕ;
  at_most_zero = λ d. d == 0;
  at_least_zero = λ d. true;
  seconds = λ d. d;
}

abbrev demo_policy : RetryPolicy
demo_policy = record { network_backoff = 60 ∷ 300 ∷ [] }

abbrev failed_once : Database
failed_once = run (to_fail 300 demo_lease "network" true (some 360) none ∷ []) claimed

retried :
    (Service.failure_decision demo_policy demo_claim ErrorClass.network none claimed
      ≡ ok (Retry.retry_after 60, claimed))
    × (Service.apply_failure
          (λ time delay. time + delay)
          300
          300
          demo_claim
          ErrorClass.network
          (Retry.retry_after 60)
          none
          claimed
        ≡ ok (tt, failed_once))
unfolding queue_code Service.failure_decision Service.decide Service.apply_failure
    Retry.next_attempt Retry.backoff_for_attempt ErrorClass.as_str
retried = (refl, refl)

failure_follows_policy_example :
    (counted : Job) × (Table.find_job 7 claimed.jobs ≡ some counted)
    × IsDue demo_policy ErrorClass.network
        (min (counted.retryable_failure_count + 1) Table.max_i32)
        none
        (Retry.retry_after 60)
    × IsApplied (λ time delay. time + delay) 300 (Retry.retry_after 60) 7 failed_once
failure_follows_policy_example =
    failure_follows_policy (λ time delay. time + delay) 300 300 demo_policy demo_claim
      ErrorClass.network none (Retry.retry_after 60) none tt claimed claimed claimed failed_once
      (λ e. cc, (refl, (refl, tt))) (retried.0) (retried.1)

abbrev cancelled : Database
cancelled = run (to_cancel 400 7 2 ∷ []) claimed

abbrev cancelled_record : Transitions.JobRecord
cancelled_record = record {
  id = 7;
  priority = Priority.manual_import;
  kind = "download_media";
  payload = ("pixiv_work_id", "11") ∷ [];
  state = State.cancelled;
  attempts = 1;
  available_at = 100;
  error_class = none;
  retryable = none;
  next_retry_at = none;
  resource_revision = 3;
  created_at = 100;
  updated_at = 400;
}
