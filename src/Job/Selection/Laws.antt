-- ===== src/Job/Selection/Laws.antt =====
-- The order of a selection with a fallback (`with_fallback` of crates/domain/src/job.rs).
use pixiv_archive.Prelude.{ℕ, suc, List, [], ◌∷◌, ◌≡◌, some, get_elem?, if◌then◌else◌, arith}
use pixiv_archive.Job.Priority.{JobPriority}
use pixiv_archive.Job.Selection.{with_fallback, same_priority}

-- How often a priority stands in a list.
unfoldable pub occurrences : JobPriority → List JobPriority → ℕ
unfolding same_priority
occurrences q [] = 0
occurrences q (p ∷ ps) = let rest = occurrences q ps in if same_priority p q then suc rest else rest

-- The selection for a priority asks for that priority first, and for each priority exactly once.
pub with_fallback-occurrences :
    (primary q : JobPriority)
    → (get_elem? (with_fallback primary).priorities 0 ≡ some primary)
      × (occurrences q (with_fallback primary).priorities ≡ 1)
unfolding with_fallback occurrences
with_fallback-occurrences primary q = ground arith
