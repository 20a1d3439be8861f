-- ===== src/Queue/Tests.antt =====
-- The theorems of the queue at concrete tables.
mod Answers
use pixiv_archive.Prelude.{
  arith, err, min, ◌==◌, All, ◌≤◌, ◌<◌, ◌↔◌, ℕ, List, [], ◌∷◌, true, false, Option, none, some,
  String, ok, ◌≡◌, ◌≢◌, refl, if◌then◌else◌, str_eq, match_text, ◌+◌,
}
use pixiv_archive.Prelude.Int.{pos}
use pixiv_archive.Job.Priority
use pixiv_archive.Job.Priority.{JobPriority}
use pixiv_archive.Job.State
use pixiv_archive.Job.Kind
use pixiv_archive.Job.Selection
use pixiv_archive.Job.Selection.{JobQuotaSelection}
use pixiv_archive.Subscription.Account
use pixiv_archive.Queue.Store
use pixiv_archive.Queue.Store.{
  Documents, NewJob, UnitSteps, leave, fail_with, enqueue, append, Units, Database, Job, JobLease,
  transact,
}
use pixiv_archive.Queue.Table
use pixiv_archive.Queue.Attempts
use pixiv_archive.Queue.Linked
use pixiv_archive.Queue.Transitions
use pixiv_archive.Queue.Transitions.{task_only}
use pixiv_archive.Queue.Claiming
use pixiv_archive.Queue.Claiming.{claimed_row}
use pixiv_archive.Queue.Accounts
use pixiv_archive.Queue.Enqueue
use pixiv_archive.Queue.Insertion
use pixiv_archive.Queue.Coherence.{IsCoherent, Evolves}
use pixiv_archive.Queue.Lease.Fence.{completes, fails, lease_write, lease_write_once, claim_fences}
use pixiv_archive.Queue.Lease.Live.{complete_in_tx_total}
use pixiv_archive.Queue.Lease.Status.{lease_status_iff}
use pixiv_archive.Queue.Claiming.Answers.{IsClaim}
use pixiv_archive.Queue.Claiming.Exclusive.{claim_in_tx-IsClaim, claim_respects_lease}
use pixiv_archive.Queue.Enqueue.Once.{enqueue_download_once}
use pixiv_archive.Job.Retry.{DbError}
use pixiv_archive.Queue.Listing
use pixiv_archive.Queue.Listing.Counts.{is_settled, stats_add_up}
use pixiv_archive.Queue.Service
use pixiv_archive.Queue.Service.Retries.{IsApplied, failure_follows_policy}
use pixiv_archive.Job.ErrorClass
use pixiv_archive.Job.Retry
use pixiv_archive.Job.Retry.{Durations, RetryPolicy}
use pixiv_archive.Job.Retry.Laws.{IsDue}
use pixiv_archive.Queue.Requests.{
  Request, to_enqueue, to_enqueue_download, to_claim, to_complete, to_fail, to_allow_storage,
  to_cancel, perform, run,
}
use pixiv_archive.Queue.Requests.Invariant.{
  IsSound, empty-IsCoherent, run-IsCoherent, run-IsSound, run-Evolves,
}

abbrev read_text : List (String × String) → String → Option String
read_text [] name = none
read_text ((field, value) ∷ rest) name =
    let later = read_text rest name in if str_eq field name then some value else later

instance abbrev demo_documents : Documents
demo_documents = record {
  Value = List (String × String);
  text_field = read_text;
  object = λ fields. fields;
}

-- The tables are the number of pending runs, each of which has one job.
abbrev continue_run : ℕ → Option JobPriority → ℕ → UnitSteps ℕ
continue_run id none pending = fail_with DbError.not_found
continue_run id (some priority) pending =
    if pending == 0
    then leave pending
    else enqueue (id + 100)
        (record {
          priority = priority;
          kind = "ranking_collection";
          payload = [];
          pixiv_account_id = some 3;
          available_at = 250;
        })
        (append 1 (Store.subscription_changed 2) (leave 0))

instance abbrev demo_units : Units
demo_units = record {
  Tables = ℕ;
  Finished = ℕ;
  complete_linked_unit = λ id priority finished tables. continue_run id priority tables;
  fail_linked_unit = λ id priority error_class message tables. continue_run id priority tables;
  cancel_linked_unit = λ id priority tables. continue_run id priority tables;
  reset_linked_unit = λ id priority tables. leave tables;
}

abbrev no_jobs : Database
no_jobs = record {
  jobs = [];
  attempts = [];
  import_runs = [];
  intents = [];
  trash = [];
  accounts = record { id = 3; state = Account.normal; revision = 1; updated_at = 0 } ∷ [];
  events = [];
  units = 1;
}

abbrev demo_job : NewJob
demo_job = record {
  priority = Priority.manual_import;
  kind = "download_media";
  payload = ("pixiv_work_id", "11") ∷ [];
  pixiv_account_id = some 3;
  available_at = 100;
}

abbrev any_kind : JobQuotaSelection
any_kind = record { priorities = Priority.manual_import ∷ []; job_kinds = none }

-- A job that was put in the queue at 100 and claimed at 200, for a minute, by the worker 5.
abbrev requests : List Request
requests = to_enqueue 100 7 demo_job ∷ to_claim 200 (λ id. false) 5 any_kind (pos 60000000000) ∷ []

abbrev claimed : Database
claimed = run requests no_jobs

abbrev demo_lease : JobLease
demo_lease = record { job_id = 7; resource_revision = 2; lease_owner = 5 }

-- The code of the queue, for the tests to run.
unfoldable queue_code : Unit {0}
unfolding lease_write run perform match_text Kind.known_kind Priority.as_str Priority.from_db_value
    State.as_str State.from_db_value Kind.as_str Selection.priority_values Selection.kind_values
    Selection.has_kind_restriction Selection.is_empty_selection Store.◌>>=◌ Store.pure Store.throw
    Store.gets Store.or_throw Store.throw_if Insertion.on_units Insertion.run_steps
    Store.append_event Store.settle Store.transact Table.same_state Table.writes_media
    Table.is_purge Table.out_of_range Table.is_at_rest Table.running_lease_check
    Table.retry_time_check Table.waiting_account_check Table.waiting_storage_check
    Table.passes_checks Table.is_active_purge Table.has_purge_twin Table.find_job Table.replace_job
    Table.ids_where Table.row_error Table.write_job Table.write_change Table.update_job
    Table.update_each Table.update_jobs Attempts.numbers Attempts.open_numbers Attempts.highest
    Attempts.attempt_checks Attempts.end_where Attempts.count_where Attempts.lets_in Attempts.fits
    Attempts.update_attempts Attempts.close_attempt Attempts.close_running_attempt
    Attempts.insert_attempt Linked.count_runs Linked.change_runs Linked.status_of Linked.update_runs
    Linked.complete_linked_import_run Linked.expect_status Linked.fail_linked_import_run
    Linked.cancel_linked_import_run Linked.reset_linked_import_run_for_retry
    Transitions.job_from_row Transitions.holds_lease Transitions.purged_work
    Transitions.is_irreversible Transitions.delay_cleanup Transitions.lock_active_lease_in_tx
    Transitions.set_terminal_state Transitions.complete_linked Transitions.complete_in_tx
    Transitions.wait_for_storage Transitions.append_events Transitions.set_storage_write_allowed
    Transitions.fail_linked Transitions.fail Transitions.update_intents Transitions.close_if_running
    Transitions.check_cancel Transitions.cancel_requested Transitions.retry_requested
    Transitions.retryable_failure_count Claiming.array_position Claiming.comes_before
    Claiming.lease_of Claiming.lease_expired Claiming.can_claim Claiming.claim_order
    Claiming.candidate Claiming.claimed_from_row Claiming.close_lapsed Claiming.claim_job
    Claiming.claim_if_some Claiming.claim_in_tx Claiming.claim_next Claiming.status_of_row
    Claiming.lease_status Claiming.heartbeat_error Claiming.heartbeat_record
    Claiming.answer_heartbeat Claiming.heartbeat Insertion.find_account Accounts.replace_account
    Accounts.can_wait Accounts.write_account Accounts.invalidate_account
    Accounts.set_account_credential_invalid Accounts.move_jobs_to_account_wait
    Accounts.block_account Accounts.clear_error_class Accounts.block_account_of
    Accounts.block_account_for_job Accounts.release_account_jobs Enqueue.new_job Enqueue.for_kind
    Enqueue.is_download Insertion.first_row Insertion.insert_job Insertion.enqueue_in_tx
    Enqueue.is_pending_download Enqueue.oldest_download Enqueue.enqueue_unless
    Enqueue.enqueue_download_if_absent_with_lease
queue_code = tt

no_jobs-IsCoherent : IsCoherent no_jobs
no_jobs-IsCoherent = empty-IsCoherent no_jobs refl refl

claimed-IsCoherent : IsCoherent claimed
claimed-IsCoherent = run-IsCoherent requests no_jobs no_jobs-IsCoherent

-- The cancellation of the job puts the job of a pending run in the queue.
claimed-IsSound : IsSound claimed
unfolding queue_code
claimed-IsSound = record {
  coherent = claimed-IsCoherent;
  lawful = (record { begun = (λ e. cc, λ e. cc); ends = refl; numbered = omega arith }, tt);
}

run-IsSound_example : IsSound (run (to_cancel 350 7 2 ∷ []) claimed)
run-IsSound_example = run-IsSound (to_cancel 350 7 2 ∷ []) claimed claimed-IsSound

run-Evolves_example : Evolves claimed (run (to_allow_storage 300 false ∷ []) claimed)
run-Evolves_example = run-Evolves (to_allow_storage 300 false ∷ []) claimed claimed-IsCoherent

abbrev completed : Database
completed = run (to_complete 300 demo_lease task_only ∷ []) claimed

completes_claimed : lease_write (completes task_only) 300 demo_lease claimed ≡ ok (tt, completed)
unfolding queue_code
completes_claimed = refl

lease_write_once_example :
    lease_write (fails "network" true (some 900) none) 400 demo_lease (run [] completed)
    ≢ ok (tt, completed)
lease_write_once_example =
    lease_write_once (completes task_only) (fails "network" true (some 900) none) 300 400 demo_lease
      [] tt tt claimed completed completed claimed-IsCoherent completes_claimed

-- The row of the job under its first lease, and under its second.
abbrev held_job : Job
held_job =
    claimed_row 200 5 60000000
      (Insertion.first_row 100 7 demo_job Kind.download_media (some Account.normal))

abbrev taken_job : Job
taken_job = claimed_row 70000000 6 60000000 held_job

-- The lease has expired at 70000000, and the worker 6 takes the job over.
abbrev taken_over : Database
taken_over = run (to_claim 70000000 (λ id. false) 6 any_kind (pos 60000000000) ∷ []) claimed

holds_claimed :
    (Table.find_job 7 claimed.jobs ≡ some held_job)
    × (Transitions.holds_lease 300 demo_lease held_job ≡ true)
    × (Claiming.claim_in_tx (λ id. false) 70000000 6 any_kind (pos 60000000000) claimed
        ≡ ok (some taken_job, taken_over))
unfolding queue_code
holds_claimed = (refl, refl, refl)

taken_id : taken_job.id ≡ demo_lease.job_id
unfolding Insertion.first_row
taken_id = refl

-- In between, the storage lets writes in.
abbrev meanwhile : List Request
meanwhile = to_allow_storage 300 true ∷ []

claims_later :
    Claiming.claim_in_tx (λ id. false) 70000000 6 any_kind (pos 60000000000) (run meanwhile claimed)
    ≡ ok (some taken_job, taken_over)
unfolding queue_code
claims_later = refl

claim_fences_example :
    lease_write (completes task_only) 70000100 demo_lease (run [] taken_over) ≢ ok (tt, completed)
claim_fences_example =
    claim_fences (λ id. false) 70000000 6 any_kind (pos 60000000000) (completes task_only) 300
      70000100 demo_lease meanwhile [] held_job taken_job tt claimed taken_over completed
      claimed-IsCoherent (holds_claimed.0) (holds_claimed.1) claims_later taken_id
