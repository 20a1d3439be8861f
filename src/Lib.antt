-- ===== src/Lib.antt =====
-- PixivArchive keeps an archive of works from Pixiv: subscriptions and imports discover works, rules
-- written by the user decide for each whether it is downloaded, kept as metadata or ignored, and
-- workers serve the jobs that follow, by priority and with retries. This library models the decision
-- logic of that pipeline, and the queue of jobs in the database.
--
-- The parts and their files (paths from the repository's root):
--   Rule/     the rule engine, crates/domain/src/rule/. Field, Operator, Options, Value and Schema
--             are field.rs, operator.rs, options.rs, value.rs and schema.rs; Validation is `validate`
--             of schema.rs; Trace is trace.rs; Candidate, Compare, ValueTest and Evaluator are
--             evaluator.rs (the work and its values, the comparisons, `evaluate_value`, and the
--             evaluation of conditions, groups and rules); Catalog is catalog.rs. Semantics gives
--             the meaning of a rule without evaluation order.
--   Job/      jobs, crates/domain/src/job.rs and crates/application/src/jobs.rs. Priority, State,
--             Kind, ErrorClass and Collection are the enumerations with their stored words; Policy is
--             `JobPriorityPolicy`; Selection is `JobQuotaSelection`; Retry is `RetryPolicy` with
--             `database_error_class`; Quota is `QueueQuotaWeights` and `QueueQuotaRotation`.
--   Subscription/  crates/domain/src/subscription.rs: Kind, Account, RunStatus, RecentState, ImportKind
--             and ImportStatus are the enumerations with their stored words, and Schedule is
--             `SubscriptionSchedule`.
--   Queue/    the job queue, crates/db/src/jobs/, over the tables of migrations/0001_initial.sql. Store
--             has the tables and a transaction on them, Table and Attempts the statements on jobs and
--             attempts with the checks and unique indexes of these tables, Insertion the insertion of
--             a job and the calls of the units of subscription runs, Linked the import run of a job,
--             Transitions is transitions.rs, Claiming is claiming.rs, Accounts is account_wait.rs,
--             Enqueue is enqueue.rs, Listing is listing.rs, and Requests puts the transactions
--             together. Service is the part of `JobService` that decides on a failed attempt.
--             Coherence has the invariant, and Lease what a lease permits.
--   Prelude/  what the parts share: numbers, lists, texts, results that may fail or panic, and words
--             that stand for values.
-- A rule is validated when it is stored, and evaluated on each work; its decision makes the job whose
-- kind the policy gives a priority, in which the rotation then serves it, and whose failed attempts
-- the retry policy answers.
--
-- How the code is read: a struct is a record and an enum a data type; a function that may return an
-- error or panic (an index out of range, `expect`, an overflow of the crate `time`) returns an
-- `Outcome`, with `panicked` for the panic. Loops are recursions on the list they run over, so no fuel
-- is needed. Methods of the same name in several enums stand in modules of their own. Unsigned
-- integers are natural numbers where the code cannot leave their range; i64 is the ℤ of Prelude/Int.
--
-- What is a parameter: floating-point numbers, instants, durations, Unicode normalisation and case
-- mapping, none of which is the repository's (`Platform` in Rule/Platform,
-- `Durations` in Job/Retry, `Clock` in Subscription/Schedule), and JSON values with their text fields
-- (`Documents` in Queue/Store).
-- No law of these is assumed, save in the hypotheses of a theorem.
--
-- The database: a table is a list of rows and a transaction a function of the tables, which takes
-- its time (`now()`) as an argument; an error drops its writes. An `UPDATE` writes the rows that pass
-- its `WHERE`, refuses numbers beyond `bigint` and `integer`, and checks the constraints of the
-- table. Transactions run one after another, in the order in which they commit; the rows that others
-- have locked are an argument of the claim, which skips them. Identifiers are natural numbers, and
-- moments are natural numbers of microseconds; the end of the range of timestamps is not modelled.
-- The operations on the units of subscription runs (crates/db/src/subscriptions/units.rs) are an
-- interface (`Units` in Queue/Store): each is given its tables and the priority of the job, and is a
-- sequence of steps that may enqueue jobs, as a pending run does, append events, fail or panic, and
-- ends with the tables of subscriptions. The queue runs these steps inside its transactions. A
-- sequence of transactions is one of the requests of Queue/Requests; the jobs that other parts of
-- crates/db write (`stop_active_run` of subscriptions/runs.rs, the purges of the trash) are not
-- among them.
--
-- What is not modelled: the decoding of JSON, the help texts of the catalogue, the purges of the
-- trash (enqueue.rs) and the listing of attempts, the subscription part of resume_account_in_tx and
-- the changes of credentials, and so far the other tables of crates/db, the subscriptions among them, the Pixiv client (crates/pixiv), the media
-- files (crates/media), the other services of crates/application, and the programs under apps.
pub mod Prelude
pub mod Rule
pub mod Subscription
pub mod Job
pub mod Queue
