-- ===== src/Job/Tests.antt =====
-- Jobs at concrete inputs.
use pixiv_archive.Prelude.{
  List, [], ◌∷◌, ◌≡◌, refl, ◌↔◌, Bool, true, false, some, length, ok, err, get_elem?, leb,
}
use pixiv_archive.Prelude.Int.{ℤ, pos, negsuc}
use pixiv_archive.Job.Priority.{JobPriority}
use pixiv_archive.Job.Kind.{JobKind, JobKindParseError, from_str}
use pixiv_archive.Job.Kind
use pixiv_archive.Job.Words.{from_str_iff}
use pixiv_archive.Job.ErrorClass.{rate_limit}
use pixiv_archive.Job.Policy.{JobPriorityMapping, default, mappings, from_mappings}
use pixiv_archive.Job.Policy.Laws.{IsJudged, from_mappings-IsJudged}
use pixiv_archive.Job.Policy.RoundTrip.{mappings-from_mappings}
use pixiv_archive.Job.Selection.{JobQuotaSelection, with_fallback}
use pixiv_archive.Job.Selection.Laws.{occurrences, with_fallback-occurrences}
use pixiv_archive.Job.Retry.{Durations, RetryPolicy, RetryDecision, new, next_attempt}
use pixiv_archive.Job.Retry.Laws.{IsUsable, IsDue, new_iff, next_attempt-IsDue}
use pixiv_archive.Job.Quota
use pixiv_archive.Job.Quota.{
  QueueQuotaWeights, QueueQuotaRotation, rotation, sequence, next_selection,
}
use pixiv_archive.Job.Quota.Walk.{selections, fallbacks}
use pixiv_archive.Job.Quota.Laws.{weight, rotation-fair}

from_str_iff_example :
    ((kind : JobKind) → (from_str "import_work" ≡ ok kind) ↔ ("import_work" ≡ Kind.as_str kind))
    × ((e : JobKindParseError)
        → (from_str "import_work" ≡ err e)
          ↔ ((e.value ≡ "import_work") × ((kind : JobKind) → ¬ ("import_work" ≡ Kind.as_str kind))))
from_str_iff_example = from_str_iff "import_work"

abbrev two_mappings : List JobPriorityMapping
two_mappings =
    record { job_kind = JobKind.import_work; priority = JobPriority.immediate }
    ∷ record { job_kind = JobKind.import_work; priority = JobPriority.manual_import }
    ∷ []

from_mappings-IsJudged_example : IsJudged two_mappings (from_mappings two_mappings)
from_mappings-IsJudged_example = from_mappings-IsJudged two_mappings

default_length : length default.priorities ≡ 9
unfolding default
default_length = refl

mappings-from_mappings_example :
    (ms : List JobPriorityMapping) × (mappings default ≡ ok ms) × (from_mappings ms ≡ ok default)
mappings-from_mappings_example = mappings-from_mappings default default_length

with_fallback-occurrences_example :
    (get_elem? (with_fallback JobPriority.immediate).priorities 0 ≡ some JobPriority.immediate)
    × (occurrences JobPriority.manual_import (with_fallback JobPriority.immediate).priorities ≡ 1)
with_fallback-occurrences_example =
    with_fallback-occurrences JobPriority.immediate JobPriority.manual_import

-- Durations as whole numbers of seconds.
abbrev not_positive : ℤ → Bool
not_positive (pos n) = leb n 0
not_positive (negsuc n) = true

abbrev not_negative : ℤ → Bool
not_negative (pos n) = true
not_negative (negsuc n) = false

instance abbrev whole_seconds : Durations
whole_seconds = record {
  Duration = ℤ;
  at_most_zero = not_positive;
  at_least_zero = not_negative;
  seconds = pos;
}

abbrev minute_and_hour : RetryPolicy
minute_and_hour = record { network_backoff = pos 60 ∷ pos 3600 ∷ [] }

minute_and_hour-IsUsable : IsUsable minute_and_hour
minute_and_hour-IsUsable = (λ e. cc e, (refl, (refl, tt)))

new_iff_example :
    (new minute_and_hour.network_backoff ≡ ok minute_and_hour) ↔ IsUsable minute_and_hour
new_iff_example = new_iff minute_and_hour.network_backoff

next_attempt-IsDue_example :
    (d : RetryDecision) × (next_attempt minute_and_hour rate_limit 2 (some (negsuc 3)) ≡ ok d)
    × IsDue minute_and_hour rate_limit 2 (some (negsuc 3)) d
next_attempt-IsDue_example =
    next_attempt-IsDue minute_and_hour minute_and_hour-IsUsable rate_limit 2 (some (negsuc 3))

abbrev weights : QueueQuotaWeights
weights = record {
  immediate = 2;
  manual_import = 1;
  scheduled_collection = 1;
  background_maintenance = 1;
}

weights_accepted : Quota.new 2 1 1 1 ≡ ok weights
unfolding Quota.new
weights_accepted = refl

rotation-fair_example :
    (earlier : List JobQuotaSelection) × (r : QueueQuotaRotation) × (selections 3 (rotation weights)
      ≡ ok (earlier, r))
    × ((round : List JobPriority) × (selections (length (sequence weights)) r
          ≡ ok (fallbacks round, r))
        × ((q : JobPriority) → occurrences q round ≡ weight weights q))
rotation-fair_example = rotation-fair weights 2 1 1 1 3 weights_accepted

-- The first cycle over those weights.
first_cycle :
    selections 5 (rotation weights)
    ≡ ok (
      fallbacks (
          JobPriority.manual_import ∷ JobPriority.immediate ∷ JobPriority.immediate
          ∷ JobPriority.scheduled_collection ∷ JobPriority.background_maintenance ∷ []),
      rotation weights,
    )
unfolding selections next_selection rotation sequence
first_cycle = refl
