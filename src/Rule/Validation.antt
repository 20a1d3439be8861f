-- ===== src/Rule/Validation.antt =====
-- The validation of a rule (rule/schema.rs).
pub mod Checks
pub mod Laws
pub mod Blame
use pixiv_archive.Prelude.{
  ℕ, suc, List, [], ◌∷◌, Bool, true, false, not, ◌&&◌, Option, none, some, String, str_eq,
  if◌then◌else◌, is_some, is_none, is_empty, all, any, is_blank, ◌==◌,
}
use pixiv_archive.Prelude.Int.{is_positive}
use pixiv_archive.Rule.Platform.{Platform}
use pixiv_archive.Rule.Field.{
  FieldType, RuleField, is_page, is_work, is_tags, is_text_or_tags, scope, value_type,
}
use pixiv_archive.Rule.Operator.{
  RuleOperator, supports, equals, not_equals, greater_than, greater_than_or_equal, less_than,
  less_than_or_equal, between, not_between, contains, not_contains, starts_with, ends_with, in_set,
  not_in_set, in_any, not_in_any, contains_any_tag, contains_all_tags, excludes_any_tag,
  not_contains_all_tags, equals_tag_set, tag_name_contains, tag_name_not_contains, count_equals,
  count_greater_than_or_equal, count_less_than_or_equal, before, after, recent_hours, recent_days,
  is_true, is_false, exists, missing,
}
use pixiv_archive.Rule.Options.{RuleValueOption, value_options}
use pixiv_archive.Rule.Value.{ConditionValue}
use pixiv_archive.Rule.Schema.{
  current_schema_version, ConditionPath, RuleError, unsupported_schema_version, invalid_rule,
  invalid_group, invalid_condition, Condition, ConditionGroup, RuleDefinition,
}

pub data Validated : Type 0 where
  ok : Validated
  err : RuleError → Validated

-- `step?` followed by the rest of the block, and `if bad { return Err(error) }`.
infixl 5 ◌>>◌
abbrev pub ◌>>◌ : Validated → Validated → Validated
ok >> rest = rest
err e >> rest = err e

abbrev pub reject_if : Bool → RuleError → Validated
reject_if true e = err e
reject_if false e = ok

module _ ⦃P : Platform⦄ where
  open P use {number_le, instant_le, is_finite}

  -- The patterns of `value_matches_condition`.
  abbrev is_finite_number : Option ConditionValue → Bool
  is_finite_number (some (ConditionValue.number n)) = is_finite n
  is_finite_number _ = false

  abbrev is_number_range : Option ConditionValue → Bool
  is_number_range (some (ConditionValue.number_range _)) = true
  is_number_range _ = false

  abbrev pub is_text : Option ConditionValue → Bool
  is_text (some (ConditionValue.text _)) = true
  is_text _ = false

  abbrev pub is_text_list : Option ConditionValue → Bool
  is_text_list (some (ConditionValue.text_list items)) = not (is_empty items)
  is_text_list _ = false

  abbrev is_date : Option ConditionValue → Bool
  is_date (some (ConditionValue.date _)) = true
  is_date _ = false

  abbrev is_date_range : Option ConditionValue → Bool
  is_date_range (some (ConditionValue.date_range _)) = true
  is_date_range _ = false

  abbrev is_duration_hours : Option ConditionValue → Bool
  is_duration_hours (some (ConditionValue.duration_hours hours)) = is_positive hours
  is_duration_hours _ = false

  abbrev is_duration_days : Option ConditionValue → Bool
  is_duration_days (some (ConditionValue.duration_days days)) = is_positive days
  is_duration_days _ = false

  unfoldable pub value_shape_matches : FieldType → RuleOperator → Option ConditionValue → Bool
  value_shape_matches _ exists value = is_none value
  value_shape_matches _ missing value = is_none value
  value_shape_matches FieldType.boolean is_true value = is_none value
  value_shape_matches FieldType.boolean is_false value = is_none value
  value_shape_matches FieldType.number equals value = is_finite_number value
  value_shape_matches FieldType.number not_equals value = is_finite_number value
  value_shape_matches FieldType.number greater_than value = is_finite_number value
  value_shape_matches FieldType.number greater_than_or_equal value = is_finite_number value
  value_shape_matches FieldType.number less_than value = is_finite_number value
  value_shape_matches FieldType.number less_than_or_equal value = is_finite_number value
  value_shape_matches FieldType.number between value = is_number_range value
  value_shape_matches FieldType.number not_between value = is_number_range value
  value_shape_matches FieldType.text equals value = is_text value
  value_shape_matches FieldType.text not_equals value = is_text value
  value_shape_matches FieldType.text contains value = is_text value
  value_shape_matches FieldType.text not_contains value = is_text value
  value_shape_matches FieldType.text starts_with value = is_text value
  value_shape_matches FieldType.text ends_with value = is_text value
  value_shape_matches FieldType.category equals value = is_text value
  value_shape_matches FieldType.category not_equals value = is_text value
  value_shape_matches FieldType.text in_set value = is_text_list value
  value_shape_matches FieldType.text not_in_set value = is_text_list value
  value_shape_matches FieldType.category in_any value = is_text_list value
  value_shape_matches FieldType.category not_in_any value = is_text_list value
  value_shape_matches FieldType.tags contains_any_tag value = is_text_list value
  value_shape_matches FieldType.tags contains_all_tags value = is_text_list value
  value_shape_matches FieldType.tags excludes_any_tag value = is_text_list value
  value_shape_matches FieldType.tags not_contains_all_tags value = is_text_list value
  value_shape_matches FieldType.tags equals_tag_set value = is_text_list value
  value_shape_matches FieldType.tags tag_name_contains value = is_text value
  value_shape_matches FieldType.tags tag_name_not_contains value = is_text value
  value_shape_matches FieldType.tags count_equals value = is_finite_number value
  value_shape_matches FieldType.tags count_greater_than_or_equal value = is_finite_number value
  value_shape_matches FieldType.tags count_less_than_or_equal value = is_finite_number value
  value_shape_matches FieldType.date before value = is_date value
  value_shape_matches FieldType.date after value = is_date value
  value_shape_matches FieldType.date between value = is_date_range value
  value_shape_matches FieldType.date recent_hours value = is_duration_hours value
  value_shape_matches FieldType.date recent_days value = is_duration_days value
  value_shape_matches _ _ value = false

  unfoldable pub range_is_ordered : Option ConditionValue → Bool
  range_is_ordered (some (ConditionValue.number_range range)) =
      is_finite range.min && is_finite range.max && number_le range.min range.max
  range_is_ordered (some (ConditionValue.date_range range)) = instant_le range.start range.end
  range_is_ordered _ = true

  unfoldable pub value_matches_condition : FieldType → RuleOperator → Option ConditionValue → Bool
  unfolding value_shape_matches range_is_ordered
  value_matches_condition field_type operator value =
      value_shape_matches field_type operator value && range_is_ordered value

  abbrev is_available : List RuleValueOption → String → Bool
  is_available options candidate = any (λ option. str_eq option.value candidate) options

  among_options : List RuleValueOption → Option ConditionValue → Bool
  among_options options (some (ConditionValue.text value)) = is_available options value
  among_options options (some (ConditionValue.text_list values)) = all (is_available options) values
  among_options options none = true
  among_options options _ = false

  unfoldable pub value_matches_options : RuleField → Option ConditionValue → Bool
  unfolding among_options value_options
  value_matches_options field value =
      let options = value_options field in
      if is_empty options then true else among_options options value

  unfoldable pub validate_condition : ℕ → ℕ → Condition → Validated
  validate_condition group_index condition_index c =
      let path : ConditionPath = record {
        group_index = group_index;
        condition_index = condition_index;
      } in
      do
        reject_if (is_page (scope c.field) && is_none c.page_quantifier)
            (invalid_condition path "page-scoped condition requires a page quantifier")
        reject_if (is_work (scope c.field) && is_some c.page_quantifier)
            (invalid_condition path "work-scoped condition cannot have a page quantifier")
        reject_if (not (is_tags c.field) && is_some c.tag_scope)
            (invalid_condition path "tag scope is only valid for tag conditions")
        reject_if (not (is_text_or_tags (value_type c.field)) && is_some c.case_sensitive)
            (invalid_condition path "case sensitivity is only valid for text and tag conditions")
        reject_if (not (supports c.operator (value_type c.field)))
            (invalid_condition path "operator is not valid for field type")
        reject_if (not (value_matches_condition (value_type c.field) c.operator c.value))
            (invalid_condition path "condition value does not match field and operator")
        reject_if (not (value_matches_options c.field c.value))
            (invalid_condition path "condition value is not available for field")
        ok

  -- The loops of `ConditionGroup::validate` and of `RuleDefinitionV1::validate`.
  unfoldable pub validate_conditions : ℕ → ℕ → List Condition → Validated
  validate_conditions group_index condition_index [] = ok
  validate_conditions group_index condition_index (c ∷ cs) = do
    validate_condition group_index condition_index c
    validate_conditions group_index (suc condition_index) cs

  unfoldable pub validate_group : ℕ → ConditionGroup → Validated
  validate_group group_index group = do
    reject_if (is_empty group.conditions) (invalid_group group_index "condition group is empty")
    validate_conditions group_index 0 group.conditions

  unfoldable pub validate_groups : ℕ → List ConditionGroup → Validated
  validate_groups group_index [] = ok
  validate_groups group_index (g ∷ gs) = do
    validate_group group_index g
    validate_groups (suc group_index) gs

  unfoldable pub validate : RuleDefinition → Validated
  validate r = do
    reject_if (not (r.schema_version == current_schema_version))
        (unsupported_schema_version r.schema_version)
    reject_if (is_blank r.name) (invalid_rule "rule name is empty")
    reject_if (is_empty r.groups) (invalid_rule "rule has no condition groups")
    validate_groups 0 r.groups
