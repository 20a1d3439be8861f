-- ===== src/Job/Selection.antt =====
-- Which priorities and kinds of jobs a claim may take (crates/domain/src/job.rs).
pub mod Laws
use pixiv_archive.Prelude.{
  List, [], ◌∷◌, ◌++◌, Bool, true, false, not, ◌||◌, Option, none, some, String, map, if◌then◌else◌,
  is_some, is_empty,
}
use pixiv_archive.Job.Priority
use pixiv_archive.Job.Priority.{
  JobPriority, JobPriority-discrete, immediate, manual_import, scheduled_collection,
  background_maintenance,
}
use pixiv_archive.Job.Kind
use pixiv_archive.Job.Kind.{JobKind}

pub record JobQuotaSelection : Type 0 where
  pub priorities : List JobPriority
  pub job_kinds : Option (List JobKind)

unfoldable pub same_priority : JobPriority → JobPriority → Bool
same_priority immediate immediate = true
same_priority manual_import manual_import = true
same_priority scheduled_collection scheduled_collection = true
same_priority background_maintenance background_maintenance = true
same_priority _ _ = false

unfoldable pub new : List JobPriority → JobQuotaSelection
new priorities = record { priorities = priorities; job_kinds = none }

-- The loop that pushes the priorities other than the primary one.
push_others : JobPriority → List JobPriority → List JobPriority → List JobPriority
unfolding same_priority
push_others primary priorities [] = priorities
push_others primary priorities (priority ∷ rest) =
    push_others primary
      (if not (same_priority priority primary) then priorities ++ priority ∷ [] else priorities)
      rest

unfoldable pub with_fallback : JobPriority → JobQuotaSelection
unfolding push_others
with_fallback primary = record {
  priorities =
      push_others primary (primary ∷ [])
        (manual_import ∷ immediate ∷ scheduled_collection ∷ background_maintenance ∷ []);
  job_kinds = none;
}

unfoldable pub restricted_to : JobQuotaSelection → List JobKind → JobQuotaSelection
restricted_to selection job_kinds = record selection { job_kinds = some job_kinds }

unfoldable pub priority_values : JobQuotaSelection → List String
unfolding Priority.as_str
priority_values selection = map Priority.as_str selection.priorities

-- `unwrap_or_default`.
abbrev or_empty : {A : Type 0} → Option (List A) → List A
or_empty none = []
or_empty (some xs) = xs

unfoldable pub kind_values : JobQuotaSelection → List String
unfolding Kind.as_str
kind_values selection = map Kind.as_str (or_empty selection.job_kinds)

unfoldable pub has_kind_restriction : JobQuotaSelection → Bool
has_kind_restriction selection = is_some selection.job_kinds

abbrev is_some_and_empty : {A : Type 0} → Option (List A) → Bool
is_some_and_empty none = false
is_some_and_empty (some xs) = is_empty xs

unfoldable pub is_empty_selection : JobQuotaSelection → Bool
is_empty_selection selection =
    is_empty selection.priorities || is_some_and_empty selection.job_kinds
