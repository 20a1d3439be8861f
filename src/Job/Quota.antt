-- ===== src/Job/Quota.antt =====
-- The rotation over the priorities that a worker serves (crates/application/src/jobs.rs).
pub mod Walk
pub mod Laws
use pixiv_archive.Prelude.{
  ℕ, ◌+◌, ◌%◌, List, [], ◌++◌, Bool, ◌||◌, ◌==◌, if◌then◌else◌, length, get_elem?, replicate,
  Outcome, ok, err, expect, ◌>>=◌,
}
use pixiv_archive.Job.Priority.{
  JobPriority, immediate, manual_import, scheduled_collection, background_maintenance,
}
use pixiv_archive.Job.Selection.{JobQuotaSelection, with_fallback}

-- The weights are u16 in the code, so that their sum is in the range of usize.
pub record QueueQuotaWeights : Type 0 where
  pub immediate : ℕ
  pub manual_import : ℕ
  pub scheduled_collection : ℕ
  pub background_maintenance : ℕ

pub data QueueQuotaError : Type 0 where
  zero_weight : QueueQuotaError

unfoldable pub new : ℕ → ℕ → ℕ → ℕ → Outcome QueueQuotaError QueueQuotaWeights
new i m s b =
    if (i == 0) || (m == 0) || (s == 0) || (b == 0)
    then err zero_weight
    else ok (record {
      immediate = i;
      manual_import = m;
      scheduled_collection = s;
      background_maintenance = b;
    })

unfoldable pub sequence : QueueQuotaWeights → List JobPriority
sequence weights =
    replicate weights.manual_import JobPriority.manual_import
    ++ replicate weights.immediate JobPriority.immediate
    ++ replicate weights.scheduled_collection JobPriority.scheduled_collection
    ++ replicate weights.background_maintenance JobPriority.background_maintenance

pub record QueueQuotaRotation : Type 0 where
  pub sequence : List JobPriority
  pub cursor : ℕ

unfoldable pub rotation : QueueQuotaWeights → QueueQuotaRotation
rotation weights = record { sequence = sequence weights; cursor = 0 }

-- The selection, and the rotation after it; an index out of range panics.
unfoldable pub next_selection :
    QueueQuotaRotation → Outcome QueueQuotaError (JobQuotaSelection × QueueQuotaRotation)
unfolding with_fallback
next_selection r = do
  priority ← expect (get_elem? r.sequence r.cursor)
  ok (with_fallback priority, record r { cursor = (r.cursor + 1) % length r.sequence })
