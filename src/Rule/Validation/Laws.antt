-- ===== src/Rule/Validation/Laws.antt =====
-- Well-formed rules and the validation (rule/schema.rs).
use mathlib.Core.List.{Memᴰ}
use pixiv_archive.Prelude.{
  ◌∙◌, sym, ℕ, suc, List, [], ◌∷◌, ◌≡◌, refl, ◌≢◌, ◌↔◌, ◌⊎◌, inl, inr, true, false, none, is_some,
  is_blank, All, List-cases, arith,
}
use pixiv_archive.Rule.Platform.{Platform}
use pixiv_archive.Rule.Field.{FieldScope, FieldType, RuleField, scope, value_type}
use pixiv_archive.Rule.Operator.{for_type}
use pixiv_archive.Rule.Operator.Laws.{supports_iff}
use pixiv_archive.Rule.Schema.{current_schema_version, Condition, ConditionGroup, RuleDefinition}
use pixiv_archive.Rule.Validation.Checks.{checks, run_iff, validate_condition-run}
use pixiv_archive.Rule.Validation.{
  Validated, ok, ◌>>◌, value_matches_condition, value_matches_options, validate_condition,
  validate_conditions, validate_group, validate_groups, validate,
}

module _ ⦃P : Platform⦄ where
  -- A condition that the rules about fields, operators and values allow.
  pub record IsWellFormed (c : Condition) : Type 0 where
    pub page_scoped : scope c.field ≡ FieldScope.page → is_some c.page_quantifier ≡ true
    pub work_scoped : scope c.field ≡ FieldScope.work → c.page_quantifier ≡ none
    pub tag_scoped : is_some c.tag_scope ≡ true → c.field ≡ RuleField.tags
    pub cased :
        is_some c.case_sensitive ≡ true
        → (value_type c.field ≡ FieldType.text) ⊎ (value_type c.field ≡ FieldType.tags)
    pub supported : Memᴰ c.operator (for_type (value_type c.field))
    pub shaped : value_matches_condition (value_type c.field) c.operator c.value ≡ true
    pub offered : value_matches_options c.field c.value ≡ true

  abbrev Passes : Condition → Type 0
  Passes c = All (λ check. check.0 ≡ false) (checks c)

  Passes-IsWellFormed : (c : Condition) → Passes c → IsWellFormed c
  Passes-IsWellFormed c h =
      let (page, (work, (tag, (case, (operator, (shape, (option, _))))))) = h in
      record {
        page_scoped = λ e. ground arith;
        work_scoped = λ e. ground arith;
        tag_scoped = λ e. ground arith;
        cased = λ e. ground arith;
        supported = (supports_iff c.operator (value_type c.field)).0 (ground arith);
        shaped = ground arith;
        offered = ground arith;
      }

  IsWellFormed-Passes : (c : Condition) → IsWellFormed c → Passes c
  IsWellFormed-Passes c w =
      let listed = (supports_iff c.operator (value_type c.field)).1 w.supported in
      (
        ground arith,
        (
          ground arith,
          (ground arith, (ground arith, (ground arith, (ground arith, (ground arith, tt))))),
        ),
      )

  pub validate_condition-IsWellFormed :
      (g i : ℕ) (c : Condition) → validate_condition g i c ≡ ok → IsWellFormed c
  validate_condition-IsWellFormed g i c h =
      Passes-IsWellFormed c ((run_iff _ (checks c)).0 (sym (validate_condition-run g i c) ∙ h))

  pub IsWellFormed-validate_condition :
      (g i : ℕ) (c : Condition) → IsWellFormed c → validate_condition g i c ≡ ok
  IsWellFormed-validate_condition g i c w =
      validate_condition-run g i c ∙ (run_iff _ (checks c)).1 (IsWellFormed-Passes c w)

  >>-eq-ok : (m rest : Validated) → (m >> rest) ≡ ok → (m ≡ ok) × (rest ≡ ok)
  >>-eq-ok m rest h = ground arith

  abbrev pub IsWellFormedGroup : ConditionGroup → Type 0
  IsWellFormedGroup g = (g.conditions ≢ []) × All IsWellFormed g.conditions

  pub record IsValid (r : RuleDefinition) : Type 0 where
    pub versioned : r.schema_version ≡ current_schema_version
    pub named : is_blank r.name ≡ false
    pub grouped : r.groups ≢ []
    pub well_formed : All IsWellFormedGroup r.groups

  conditions_iff :
      (g i : ℕ) (cs : List Condition) → (validate_conditions g i cs ≡ ok) ↔ All IsWellFormed cs
  unfolding validate_conditions
  conditions_iff g i [] = (λ _. tt, λ _. refl)
  conditions_iff g i (c ∷ cs) =
      let (to, from) = conditions_iff g (suc i) cs in
      (
        λ h.
            let (first, later) = >>-eq-ok (validate_condition g i c) _ h in
            (validate_condition-IsWellFormed g i c first, to later),
        λ w. rw (IsWellFormed-validate_condition g i c w.0) (from w.1),
      )

  group_iff :
      (g : ℕ) (group : ConditionGroup) → (validate_group g group ≡ ok) ↔ IsWellFormedGroup group
  unfolding validate_group
  group_iff g group = elim (List-cases group.conditions) [
    | inl empty ↦ (λ h. ground arith, λ w. absurd (w.0 empty))
    | inr (c, cs, full) ↦
        let (to, from) = conditions_iff g 0 group.conditions in
        (λ h. (λ e. cc (e, full), to (ground arith)), λ w. ground (arith, from w.1))
  ]

  groups_iff :
      (g : ℕ) (groups : List ConditionGroup)
      → (validate_groups g groups ≡ ok) ↔ All IsWellFormedGroup groups
  unfolding validate_groups
  groups_iff g [] = (λ _. tt, λ _. refl)
  groups_iff g (group ∷ groups) =
      let (to, from) = groups_iff (suc g) groups in
      (
        λ h.
            let (first, later) = >>-eq-ok (validate_group g group) _ h in
            ((group_iff g group).0 first, to later),
        λ w. rw ((group_iff g group).1 w.0) (from w.1),
      )

  -- The validation accepts exactly the rules of the current version with a name that is not blank,
  -- at least one group, at least one condition in each group, and only well-formed conditions.
  pub validate_iff : (r : RuleDefinition) → (validate r ≡ ok) ↔ IsValid r
  unfolding validate
  validate_iff r = elim (List-cases r.groups) [
    | inl empty ↦ (λ h. ground arith, λ v. absurd (v.grouped empty))
    | inr (g, gs, full) ↦
        let (to, from) = groups_iff 0 r.groups in
        (
          λ h. record {
            versioned = ground arith;
            named = ground arith;
            grouped = λ e. cc (e, full);
            well_formed = to (ground arith);
          },
          λ v. ground (arith, from v.well_formed),
        )
  ]
