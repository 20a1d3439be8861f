-- ===== src/Job/Policy/Laws.antt =====
-- The policy made from mappings (`from_mappings` of crates/domain/src/job.rs).
use pixiv_archive.Prelude.{
  ℕ, zero, suc, ◌<◌, List, [], ◌∷◌, ◌++◌, ◌≡◌, refl, sym, ap, ◌∙◌, inl, inr, Option, none, some,
  length, replicate, get_elem?, get_elem?-total, ok, err, panicked, expect, ◌>>=◌, All,
  Option-cases, arith,
}
use pixiv_archive.Job.Priority.{JobPriority}
use pixiv_archive.Job.Kind.{JobKind, all_kinds, index}
use pixiv_archive.Job.Policy.{
  JobPriorityMapping, JobPriorityPolicy, Checked, missing, duplicate, fill, require_all, expect_all,
  from_mappings, priority_for,
}
use pixiv_archive.Job.Policy.Slots.{assigned, held, given, IsFilled, fill-IsFilled, index_lt}

-- What a check of some kinds returns: the same slots, with a priority for each kind, or a kind
-- without one.
abbrev IsComplete :
    List JobKind → List (Option JobPriority) → Checked (List (Option JobPriority)) → Type 0
IsComplete kinds slots (ok checked) =
    (checked ≡ slots)
    × All (λ kind. (p : JobPriority) × (get_elem? slots (index kind) ≡ some (some p))) kinds
IsComplete kinds slots (err (missing kind)) = get_elem? slots (index kind) ≡ some none
IsComplete kinds slots (err (duplicate kind)) = ⊥
IsComplete kinds slots panicked = ⊥

IsComplete-cons :
    (kind : JobKind) (kinds : List JobKind) (slots : List (Option JobPriority)) (p : JobPriority)
    (o : Checked (List (Option JobPriority)))
    → get_elem? slots (index kind) ≡ some (some p)
    → IsComplete kinds slots o
    → IsComplete (kind ∷ kinds) slots o
IsComplete-cons kind kinds slots p (ok checked) at h = (h.0, ((p, at), h.1))
IsComplete-cons kind kinds slots p (err (missing k)) at h = h
IsComplete-cons kind kinds slots p (err (duplicate k)) at h = h
IsComplete-cons kind kinds slots p panicked at h = h

require_all-IsComplete :
    (kinds : List JobKind) (slots : List (Option JobPriority))
    → length slots ≡ 9
    → IsComplete kinds slots (require_all kinds slots)
unfolding require_all
require_all-IsComplete [] slots sized = (refl, tt)
require_all-IsComplete (kind ∷ kinds) slots sized =
    let (slot, at) = get_elem?-total slots (index kind) (omega (arith, index_lt kind, sized)) in
    elim (Option-cases slot) [
      | inl free ↦ let free_slot = at ∙ ap some free in rw (free_slot, require_all) free_slot
      | inr (p, taken) ↦
          let taken_slot = at ∙ ap some taken in
          rw (taken_slot, require_all)
            (IsComplete-cons kind kinds slots p (require_all kinds slots) taken_slot
              (require_all-IsComplete kinds slots sized))
    ]

-- Every index of the array is the index of a kind.
kind_at : (i : ℕ) → i < 9 → (kind : JobKind) × (index kind ≡ i)
unfolding index
kind_at zero h = (JobKind.scheduled_collection, refl)
kind_at (suc zero) h = (JobKind.ranking_collection, refl)
kind_at (suc (suc zero)) h = (JobKind.following_collection, refl)
kind_at (suc (suc (suc zero))) h = (JobKind.bookmarks_collection, refl)
kind_at (suc (suc (suc (suc zero)))) h = (JobKind.import_artist, refl)
kind_at (suc (suc (suc (suc (suc zero))))) h = (JobKind.import_work, refl)
kind_at (suc (suc (suc (suc (suc (suc zero)))))) h = (JobKind.download_media, refl)
kind_at (suc (suc (suc (suc (suc (suc (suc zero))))))) h = (JobKind.generate_derivative, refl)
kind_at (suc (suc (suc (suc (suc (suc (suc (suc zero)))))))) h = (JobKind.purge_trash, refl)
kind_at (suc (suc (suc (suc (suc (suc (suc (suc (suc i))))))))) h = absurd (omega (arith, h))

All-kinds : (P : JobKind → Type 0) → All P all_kinds → (kind : JobKind) → P kind
All-kinds P h JobKind.scheduled_collection = h.0
All-kinds P h JobKind.ranking_collection = h.1.0
All-kinds P h JobKind.following_collection = h.1.1.0
All-kinds P h JobKind.bookmarks_collection = h.1.1.1.0
All-kinds P h JobKind.import_artist = h.1.1.1.1.0
All-kinds P h JobKind.import_work = h.1.1.1.1.1.0
All-kinds P h JobKind.download_media = h.1.1.1.1.1.1.0
All-kinds P h JobKind.generate_derivative = h.1.1.1.1.1.1.1.0
All-kinds P h JobKind.purge_trash = h.1.1.1.1.1.1.1.1.0

-- When every slot is taken, the priorities are those of the slots.
expect_all_full :
    (slots : List (Option JobPriority))
    → ((i : ℕ) → i < length slots → (p : JobPriority) × (get_elem? slots i ≡ some (some p)))
    → (priorities : List JobPriority) × (expect_all slots ≡ ok priorities)
      × (length priorities ≡ length slots)
      × ((i : ℕ) (p : JobPriority)
          → get_elem? slots i ≡ some (some p)
          → get_elem? priorities i ≡ some p)
unfolding expect_all
expect_all_full [] full = ([], refl, refl, λ i p h. cc h)
expect_all_full (slot ∷ slots) full =
    let (p, here) = full 0 (omega arith) in
    let taken : slot ≡ some p = cc here in
    let (priorities, found, sized, same) =
      expect_all_full slots (λ i h. full (suc i) (omega (arith, h))) in
    (p ∷ priorities, rw (taken, found), ap suc sized, at_index p priorities taken same)
  where
    at_index :
        (p : JobPriority) (priorities : List JobPriority)
        → slot ≡ some p
        → ((i : ℕ) (q : JobPriority)
            → get_elem? slots i ≡ some (some q)
            → get_elem? priorities i ≡ some q)
        → (i : ℕ) (q : JobPriority) → get_elem? (slot ∷ slots) i ≡ some (some q)
        → get_elem? (p ∷ priorities) i ≡ some q
    at_index p priorities taken same zero q h = cc (taken, h)
    at_index p priorities taken same (suc i) q h = same i q h

-- The verdict on mappings: each kind has exactly one mapping, and the policy gives it that
-- priority; or the named kind has none; or it has two or more.
abbrev pub IsJudged : List JobPriorityMapping → Checked JobPriorityPolicy → Type 0
IsJudged ms (ok policy) =
    (kind : JobKind)
    → (p : JobPriority) × (assigned ms kind ≡ p ∷ []) × (priority_for policy kind ≡ ok p)
IsJudged ms (err (missing kind)) = assigned ms kind ≡ []
IsJudged ms (err (duplicate kind)) =
    (a b : JobPriority) × (rest : List JobPriority) × (assigned ms kind ≡ a ∷ b ∷ rest)
IsJudged ms panicked = ⊥

held-none : (kind : JobKind) → held (get_elem? (replicate 9 none) (index kind)) ≡ []
unfolding index
held-none kind = ground arith

given-none :
    (ms : List JobPriorityMapping) (kind : JobKind)
    → given (replicate 9 none) ms kind ≡ assigned ms kind
given-none ms kind = ap (λ l. l ++ assigned ms kind) (held-none kind)

module _ (ms : List JobPriorityMapping) where
  finish : List (Option JobPriority) → Checked JobPriorityPolicy
  finish slots = do priorities ← expect_all slots; ok (record { priorities = priorities })

  module _ (filled : List (Option JobPriority)) (sized : length filled ≡ 9)
      (same : (kind : JobKind) → given filled [] kind ≡ assigned ms kind) where
    judge_checked :
        (o : Checked (List (Option JobPriority)))
        → IsComplete all_kinds filled o
        → IsJudged ms (o >>= finish)
    unfolding finish priority_for assigned
    judge_checked (ok slots) h =
        let taken =
          All-kinds (λ kind. (p : JobPriority) × (get_elem? filled (index kind) ≡ some (some p)))
            h.1 in
        let full : (i : ℕ)
            → i < length filled
            → (p : JobPriority) × (get_elem? filled i ≡ some (some p)) =
          λ i lt.
            let (kind, at) = kind_at i (omega (arith, lt, sized)) in
            let (p, found) = taken kind in (p, rw at at found) in
        let (priorities, found, _, looked_up) = expect_all_full filled full in
        rw (h.0, finish, found)
          λ kind.
            let (p, at) = taken kind in
            (p, sym (same kind) ∙ rw at refl, ap expect (looked_up (index kind) p at))
    judge_checked (err (missing kind)) at = sym (same kind) ∙ rw at refl
    judge_checked (err (duplicate kind)) h = elim h [ ]
    judge_checked panicked h = elim h [ ]

  judge_filled :
      (o : Checked (List (Option JobPriority)))
      → IsFilled (replicate 9 none) ms o
      → IsJudged ms (o >>= (λ filled. require_all all_kinds filled >>= finish))
  judge_filled (ok filled) h =
      judge_checked filled h.0 (λ kind. h.1 kind ∙ given-none ms kind)
        (require_all all_kinds filled) (require_all-IsComplete all_kinds filled h.0)
  judge_filled (err (duplicate kind)) h = (h.0, h.1, h.2, sym (given-none ms kind) ∙ h.3)
  judge_filled (err (missing kind)) h = elim h [ ]
  judge_filled panicked h = elim h [ ]

  -- A policy is made from mappings, without a panic, exactly when every kind is mapped once, and it
  -- gives each kind the mapped priority; otherwise the error names a kind that is not mapped, or
  -- one that is mapped more than once.
  pub from_mappings-IsJudged : IsJudged ms (from_mappings ms)
  unfolding from_mappings finish
  from_mappings-IsJudged =
      judge_filled (fill ms (replicate 9 none)) (fill-IsFilled (replicate 9 none) ms refl)
