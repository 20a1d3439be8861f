-- ===== src/Queue/Listing/Counts.antt =====
-- The counts of jobs add up (crates/db/src/jobs/listing.rs).
use pixiv_archive.Prelude.{ℕ, ◌+◌, List, [], ◌∷◌, Bool, true, false, ◌||◌, ◌≡◌, refl, arith}
use pixiv_archive.Job.State.{completed, cancelled}
use pixiv_archive.Queue.Store.{Documents, Job}
use pixiv_archive.Queue.Table.{same_state}
use pixiv_archive.Queue.Listing.{
  count_jobs, is_counted_running, is_counted_waiting, needs_attention, stats,
}

module _ ⦃J : Documents⦄ where
  -- A completed or cancelled job.
  abbrev pub is_settled : Job → Bool
  is_settled job = same_state job.state completed || same_state job.state cancelled

  abbrev one_if : Bool → ℕ
  one_if true = 1
  one_if false = 0

  -- Each job is in exactly one of the four groups.
  one_group :
      (job : Job)
      → one_if (is_counted_running job)
          + one_if (is_counted_waiting job)
          + one_if (needs_attention job)
          + one_if (is_settled job)
        ≡ 1
  unfolding same_state
  one_group job = ground arith

  count_jobs-cons :
      (test : Job → Bool) (job : Job) (rest : List Job)
      → count_jobs test (job ∷ rest) ≡ one_if (test job) + count_jobs test rest
  unfolding count_jobs
  count_jobs-cons test job rest = ground arith

  -- Every job is counted once: the jobs that run, that wait, that require attention, and those that
  -- are completed or cancelled add up to the total.
  pub stats_add_up :
      (jobs : List Job)
      → (stats jobs).running
          + (stats jobs).waiting
          + (stats jobs).requires_attention
          + count_jobs is_settled jobs
        ≡ (stats jobs).total
  unfolding stats
  stats_add_up [] = refl
  stats_add_up (job ∷ rest) = omega (
    arith,
    one_group job,
    stats_add_up rest,
    count_jobs-cons is_counted_running job rest,
    count_jobs-cons is_counted_waiting job rest,
    count_jobs-cons needs_attention job rest,
    count_jobs-cons is_settled job rest,
    count_jobs-cons (λ job. true) job rest,
  )
