-- ===== src/Rule/Validation/Blame.antt =====
-- Where an error of the validation points.
use pixiv_archive.Prelude.{
  ap, ℕ, suc, ◌+◌, List, [], ◌∷◌, ◌≡◌, refl, sym, ◌∙◌, ◌⊎◌, inl, inr, some, String, get_elem?,
  arith,
}
use mathlib.Core.Path.{subst}
use native.Mathlib.Nat.{add-zero}
use pixiv_archive.Rule.Platform.{Platform}
use pixiv_archive.Rule.Schema.{
  ConditionPath, RuleError, invalid_condition, Condition, ConditionGroup, RuleDefinition,
}
use pixiv_archive.Rule.Validation.{
  Validated, ok, err, validate_condition, validate_conditions, validate_group, validate_groups,
  validate,
}
use pixiv_archive.Rule.Validation.Checks.{checks, run_blames, validate_condition-run}
use pixiv_archive.Rule.Validation.Laws.{IsWellFormed, IsWellFormed-validate_condition}

Validated-cases : (v : Validated) → (v ≡ ok) ⊎ ((e : RuleError) × (v ≡ err e))
Validated-cases ok = inl refl
Validated-cases (err e) = inr (e, refl)

module _ ⦃P : Platform⦄ (path : ConditionPath) (reason : String) where
  abbrev IsBlamed : Validated → Type 0
  IsBlamed v = v ≡ err (invalid_condition path reason)

  -- The condition at that position of the list is not well formed.
  abbrev Offends : List Condition → ℕ → Type 0
  Offends cs k = (c : Condition) × (get_elem? cs k ≡ some c) × ¬ IsWellFormed c

  condition_blamed :
      (g i : ℕ) (c : Condition)
      → IsBlamed (validate_condition g i c)
      → (path.group_index ≡ g) × (path.condition_index ≡ i)
  condition_blamed g i c h =
      let same = run_blames _ path reason (checks c) (sym (validate_condition-run g i c) ∙ h) in
      (ap (λ q. q.group_index) same, ap (λ q. q.condition_index) same)

  conditions_blamed :
      (g i : ℕ) (cs : List Condition)
      → IsBlamed (validate_conditions g i cs)
      → (path.group_index ≡ g) × (k : ℕ) × (path.condition_index ≡ i + k) × Offends cs k
  unfolding validate_conditions
  conditions_blamed g i [] h = cc
  conditions_blamed g i (c ∷ cs) h = elim (Validated-cases (validate_condition g i c)) [
    | inl passed ↦
        let (at_group, k, at_index, offender) = conditions_blamed g (suc i) cs (rw passed at h) in
        (at_group, suc k, omega arith, offender)
    | inr (e, failed) ↦
        let (at_group, at_index) = condition_blamed g i c (failed ∙ (rw failed at h)) in
        (
          at_group,
          0,
          at_index ∙ sym (add-zero i),
          (c, refl, λ w. cc (failed, IsWellFormed-validate_condition g i c w)),
        )
  ]

  group_blamed :
      (g : ℕ) (group : ConditionGroup)
      → IsBlamed (validate_group g group)
      → (path.group_index ≡ g) × Offends group.conditions path.condition_index
  unfolding validate_group
  group_blamed g group h =
      let blamed : IsBlamed (validate_conditions g 0 group.conditions) = ground arith in
      let (at_group, k, at_index, offender) = conditions_blamed g 0 group.conditions blamed in
      let same : k ≡ path.condition_index = omega arith in
      (at_group, subst (Offends group.conditions) same offender)

  -- The condition at the path, in those groups from the index `g`, is not well formed.
  abbrev OffendsFrom : ℕ → List ConditionGroup → Type 0
  OffendsFrom g groups =
      (j : ℕ) × (path.group_index ≡ g + j)
      × (group : ConditionGroup) × (get_elem? groups j ≡ some group)
      × Offends group.conditions path.condition_index

  groups_blamed :
      (g : ℕ) (groups : List ConditionGroup)
      → IsBlamed (validate_groups g groups)
      → OffendsFrom g groups
  unfolding validate_groups
  groups_blamed g [] h = cc
  groups_blamed g (group ∷ groups) h = elim (Validated-cases (validate_group g group)) [
    | inl passed ↦
        let (j, at_group, blamed, found, offender) =
          groups_blamed (suc g) groups (rw passed at h) in
        (suc j, omega arith, blamed, found, offender)
    | inr (e, failed) ↦
        let (at_group, offender) = group_blamed g group (failed ∙ (rw failed at h)) in
        (0, at_group ∙ sym (add-zero g), group, refl, offender)
  ]

  -- When the validation of a rule blames a condition, the path in the error leads to a condition of
  -- the rule, and that condition is not well formed.
  pub validate_blames :
      (r : RuleDefinition)
      → validate r ≡ err (invalid_condition path reason)
      → (group : ConditionGroup) × (get_elem? r.groups path.group_index ≡ some group)
        × (c : Condition) × (get_elem? group.conditions path.condition_index ≡ some c)
        × ¬ IsWellFormed c
  unfolding validate
  validate_blames r h =
      let blamed : IsBlamed (validate_groups 0 r.groups) = ground arith in
      let (j, at_group, group, found, offender) = groups_blamed 0 r.groups blamed in
      let same : j ≡ path.group_index = omega arith in
      (
        group,
        subst (λ n. get_elem? r.groups n ≡ some group) same found,
        offender.0,
        offender.1,
        offender.2,
      )
