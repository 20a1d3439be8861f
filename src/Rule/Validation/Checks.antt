-- ===== src/Rule/Validation/Checks.antt =====
-- The checks of `Condition::validate` as a list.
use pixiv_archive.Prelude.{
  ℕ, List, [], ◌∷◌, ◌≡◌, refl, ◌↔◌, Bool, true, false, not, ◌&&◌, String, is_some, is_none, All,
}
use pixiv_archive.Rule.Platform.{Platform}
use pixiv_archive.Rule.Field.{is_page, is_work, is_tags, is_text_or_tags, scope, value_type}
use pixiv_archive.Rule.Operator.{supports}
use pixiv_archive.Rule.Schema.{ConditionPath, invalid_condition, Condition}
use pixiv_archive.Rule.Validation.{
  Validated, ok, err, ◌>>◌, reject_if, validate_condition, value_matches_condition,
  value_matches_options,
}

module _ (path : ConditionPath) where
  -- The checks in order, each with its reason.
  abbrev pub run : List (Bool × String) → Validated
  run [] = ok
  run (check ∷ checks) = reject_if check.0 (invalid_condition path check.1) >> run checks

  pub run_iff :
      (checks : List (Bool × String)) → (run checks ≡ ok) ↔ All (λ check. check.0 ≡ false) checks
  run_iff [] = (λ _. tt, λ _. refl)
  run_iff ((true, why) ∷ checks) = (λ h. cc, λ h. cc (h.0))
  run_iff ((false, why) ∷ checks) =
      let (to, from) = run_iff checks in (λ h. (refl, to h), λ h. from h.1)

  -- A check that fails blames the path of its condition.
  pub run_blames :
      (blamed : ConditionPath) (reason : String) (checks : List (Bool × String))
      → run checks ≡ err (invalid_condition blamed reason)
      → blamed ≡ path
  run_blames blamed reason [] h = cc
  run_blames blamed reason ((true, why) ∷ checks) h = cc h
  run_blames blamed reason ((false, why) ∷ checks) h = run_blames blamed reason checks h

module _ ⦃P : Platform⦄ where
  abbrev pub checks : Condition → List (Bool × String)
  checks c =
      (
        is_page (scope c.field) && is_none c.page_quantifier,
        "page-scoped condition requires a page quantifier",
      )
      ∷ (
        is_work (scope c.field) && is_some c.page_quantifier,
        "work-scoped condition cannot have a page quantifier",
      )
      ∷ (not (is_tags c.field) && is_some c.tag_scope, "tag scope is only valid for tag conditions")
      ∷ (
        not (is_text_or_tags (value_type c.field)) && is_some c.case_sensitive,
        "case sensitivity is only valid for text and tag conditions",
      )
      ∷ (not (supports c.operator (value_type c.field)), "operator is not valid for field type")
      ∷ (
        not (value_matches_condition (value_type c.field) c.operator c.value),
        "condition value does not match field and operator",
      )
      ∷ (not (value_matches_options c.field c.value), "condition value is not available for field")
      ∷ []

  pub validate_condition-run :
      (g i : ℕ) (c : Condition)
      → validate_condition g i c ≡ run (record { group_index = g; condition_index = i }) (checks c)
  unfolding validate_condition
  validate_condition-run g i c = refl
