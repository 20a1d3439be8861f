-- ===== src/Job/Policy.antt =====
-- The policy that gives each job kind a priority (crates/domain/src/job.rs).
pub mod Slots
pub mod Laws
pub mod RoundTrip
use pixiv_archive.Prelude.{
  ℕ, zero, suc, List, [], ◌∷◌, Bool, Option, none, some, if◌then◌else◌, is_some, is_none, length,
  replicate, get_elem?, Outcome, ok, err, expect, ◌>>=◌,
}
use pixiv_archive.Job.Priority.{
  JobPriority, manual_import, scheduled_collection, background_maintenance,
}
use pixiv_archive.Job.Kind.{JobKind, all_kinds, index}

pub record JobPriorityMapping : Type 0 where
  pub job_kind : JobKind
  pub priority : JobPriority

-- The array is a list; an index out of its range panics.
pub record JobPriorityPolicy : Type 0 where
  pub priorities : List JobPriority

pub data JobPriorityPolicyError : Type 0 where
  missing duplicate : JobKind → JobPriorityPolicyError

abbrev pub Checked : Type 0 → Type 0
Checked A = Outcome JobPriorityPolicyError A

-- `slots[i] = slot`, for an index in range.
unfoldable pub set_slot :
    List (Option JobPriority) → ℕ → Option JobPriority → List (Option JobPriority)
set_slot [] i slot = []
set_slot (_ ∷ slots) zero slot = slot ∷ slots
set_slot (s ∷ slots) (suc i) slot = s ∷ set_slot slots i slot

-- The loop over the mappings.
unfoldable pub fill :
    List JobPriorityMapping → List (Option JobPriority) → Checked (List (Option JobPriority))
fill [] slots = ok slots
fill (m ∷ mappings) slots = do
  slot ← expect (get_elem? slots (index m.job_kind))
  let rest = fill mappings (set_slot slots (index m.job_kind) (some m.priority))
  (if is_some slot then err (duplicate m.job_kind) else rest)

-- The loop that looks for a kind without a priority.
unfoldable pub require_all :
    List JobKind → List (Option JobPriority) → Checked (List (Option JobPriority))
require_all [] slots = ok slots
require_all (kind ∷ kinds) slots = do
  slot ← expect (get_elem? slots (index kind))
  let rest = require_all kinds slots
  (if is_none slot then err (missing kind) else rest)

-- `priorities.map(|priority| priority.expect(..))`.
unfoldable pub expect_all : List (Option JobPriority) → Checked (List JobPriority)
expect_all [] = ok []
expect_all (slot ∷ slots) = do
  priority ← expect slot
  priorities ← expect_all slots
  ok (priority ∷ priorities)

unfoldable pub from_mappings : List JobPriorityMapping → Checked JobPriorityPolicy
from_mappings mappings = do
  filled ← fill mappings (replicate (length all_kinds) none)
  slots ← require_all all_kinds filled
  priorities ← expect_all slots
  ok (record { priorities = priorities })

unfoldable pub priority_for : JobPriorityPolicy → JobKind → Checked JobPriority
priority_for policy kind = expect (get_elem? policy.priorities (index kind))

collect_mappings : JobPriorityPolicy → List JobKind → Checked (List JobPriorityMapping)
unfolding priority_for index
collect_mappings policy [] = ok []
collect_mappings policy (kind ∷ kinds) = do
  priority ← priority_for policy kind
  rest ← collect_mappings policy kinds
  ok (record { job_kind = kind; priority = priority } ∷ rest)

unfoldable pub mappings : JobPriorityPolicy → Checked (List JobPriorityMapping)
unfolding collect_mappings
mappings policy = collect_mappings policy all_kinds

-- `JobPriorityPolicy::default`.
unfoldable pub default : JobPriorityPolicy
default = record {
  priorities =
      scheduled_collection ∷ scheduled_collection ∷ scheduled_collection ∷ scheduled_collection
      ∷ manual_import ∷ manual_import ∷ background_maintenance ∷ background_maintenance
      ∷ background_maintenance ∷ [];
}
