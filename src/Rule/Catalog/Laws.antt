-- ===== src/Rule/Catalog/Laws.antt =====
-- The catalogue and the validation (rule/catalog.rs and rule/schema.rs).
use mathlib.Core.Option
use pixiv_archive.Prelude.{ℕ, ◌≡◌, true, All, arith}
use pixiv_archive.Rule.Platform.{Platform}
use pixiv_archive.Rule.Field.{RuleField, scope, value_type, title}
use pixiv_archive.Rule.Operator.{supports}
use pixiv_archive.Rule.Value.{ConditionValue}
use pixiv_archive.Rule.Schema.{Condition}
use pixiv_archive.Rule.Validation.{
  ok, validate_condition, value_matches_condition, value_matches_options,
}
use pixiv_archive.Rule.Catalog.{
  RuleInitialValue, number, number_range, text, text_list, current_date_time,
  current_date_time_range, duration_hours, duration_days, RuleOperatorCatalog, RuleFieldCatalog,
  field_catalog,
}

module _ ⦃P : Platform⦄ where
  open P use {Number, Instant, is_finite, number_le, of_unsigned, instant_le}

  -- The initial value as a comparison value, at a moment.
  abbrev pub filled_in : Instant → RuleInitialValue → ConditionValue
  filled_in now (number n) = ConditionValue.number n
  filled_in now (number_range r) = ConditionValue.number_range r
  filled_in now (text s) = ConditionValue.text s
  filled_in now (text_list ss) = ConditionValue.text_list ss
  filled_in now current_date_time = ConditionValue.date now
  filled_in now current_date_time_range =
      ConditionValue.date_range (record { start = now; end = now })
  filled_in now (duration_hours h) = ConditionValue.duration_hours h
  filled_in now (duration_days d) = ConditionValue.duration_days d

  -- The condition that an entry of the catalogue starts.
  abbrev pub started : Instant → RuleFieldCatalog → RuleOperatorCatalog → Condition
  started now entry operator = record {
    field = entry.value;
    operator = operator.value;
    value = Option.map (filled_in now) operator.initial_value;
    case_sensitive = entry.case_sensitive;
    tag_scope = entry.tag_scope;
    page_quantifier = entry.page_quantifier;
  }

  -- For every field, each operator that the catalogue lists starts, with its initial value and the
  -- field's defaults, a condition that the validation accepts; provided that zero is finite and at
  -- most itself, and the moment is not after itself.
  pub field_catalog-validate :
      (now : Instant) (group_index condition_index : ℕ) (field : RuleField)
      → is_finite (of_unsigned 0) ≡ true
      → number_le (of_unsigned 0) (of_unsigned 0) ≡ true
      → instant_le now now ≡ true
      → All
          (λ operator.
            validate_condition group_index condition_index
              (started now (field_catalog field) operator)
            ≡ ok)
          (field_catalog field).operators
  unfolding field_catalog validate_condition value_matches_condition value_matches_options supports
      scope value_type
  field_catalog-validate now g i title finite ordered reflexive = ground arith
  field_catalog-validate now g i _ finite ordered reflexive = ground arith
