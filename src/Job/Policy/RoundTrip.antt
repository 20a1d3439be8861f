-- ===== src/Job/Policy/RoundTrip.antt =====
-- The mappings of a policy, read back (crates/domain/src/job.rs).
use pixiv_archive.Prelude.{List, [], ◌∷◌, ◌≡◌, refl, length, ok, arith}
use pixiv_archive.Job.Kind.{index}
use pixiv_archive.Job.Priority.{JobPriority}
use pixiv_archive.Job.Policy.{
  JobPriorityMapping, JobPriorityPolicy, from_mappings, mappings, fill, require_all, expect_all,
  set_slot,
}

listed :
    (priorities : List JobPriority)
    → length priorities ≡ 9
    → (ms : List JobPriorityMapping) × (mappings (record { priorities = priorities }) ≡ ok ms)
      × (from_mappings ms ≡ ok (record { priorities = priorities }))
unfolding mappings from_mappings fill require_all expect_all set_slot index
listed (a ∷ b ∷ c ∷ d ∷ e ∷ f ∷ g ∷ h ∷ i ∷ []) sized = (_, refl, refl)
listed _ sized = absurd (omega (arith, sized))

-- The mappings of a policy with nine priorities can be listed, and the policy made from them is the
-- same.
pub mappings-from_mappings :
    (policy : JobPriorityPolicy)
    → length policy.priorities ≡ 9
    → (ms : List JobPriorityMapping) × (mappings policy ≡ ok ms) × (from_mappings ms ≡ ok policy)
mappings-from_mappings policy sized = listed policy.priorities sized
