-- ===== src/Rule/Catalog.antt =====
-- The catalogue of fields and operators from which the user builds a rule (rule/catalog.rs). The
-- examples and help texts are left out.
pub mod Laws
use pixiv_archive.Prelude.{ℕ, List, [], ◌∷◌, map, Bool, true, false, Option, none, some, String}
use pixiv_archive.Prelude.Int.{ℤ, pos}
use pixiv_archive.Rule.Platform.{Platform}
use pixiv_archive.Rule.Field.{
  FieldScope, FieldType, RuleField, all_fields, is_page, is_text_or_tags, scope, value_type,
}
use pixiv_archive.Rule.Operator.{
  RuleOperator, for_type, requires_value, equals, not_equals, greater_than, greater_than_or_equal,
  less_than, less_than_or_equal, between, not_between, in_set, not_in_set, in_any, not_in_any,
  contains_any_tag, contains_all_tags, excludes_any_tag, not_contains_all_tags, equals_tag_set,
  count_equals, count_greater_than_or_equal, count_less_than_or_equal, before, after, recent_hours,
  recent_days, is_true, is_false, exists, missing,
}
use pixiv_archive.Rule.Options.{RuleValueOption, value_options}
use pixiv_archive.Rule.Value.{NumberRange}
use pixiv_archive.Rule.Schema.{
  TagScope, original_and_translation, PageQuantifier, any_page, current_schema_version,
}

module _ ⦃P : Platform⦄ where
  open P use {Number, of_unsigned}

  pub data RuleInitialValue : Type 0 where
    number : Number → RuleInitialValue
    number_range : NumberRange → RuleInitialValue
    text : String → RuleInitialValue
    text_list : List String → RuleInitialValue
    current_date_time : RuleInitialValue
    current_date_time_range : RuleInitialValue
    duration_hours : ℤ → RuleInitialValue
    duration_days : ℤ → RuleInitialValue

  pub record RuleOperatorCatalog : Type 0 where
    pub value : RuleOperator
    pub requires_value : Bool
    pub initial_value : Option RuleInitialValue

  pub record RuleFieldCatalog : Type 0 where
    pub value : RuleField
    pub value_type : FieldType
    pub scope : FieldScope
    pub options : List RuleValueOption
    pub operators : List RuleOperatorCatalog
    pub case_sensitive : Option Bool
    pub tag_scope : Option TagScope
    pub page_quantifier : Option PageQuantifier

  pub record RuleCatalog : Type 0 where
    pub schema_version : ℕ
    pub fields : List RuleFieldCatalog

  -- The match on the field type and the operator.
  initial_by_type : FieldType → RuleOperator → Option RuleInitialValue
  initial_by_type _ exists = none
  initial_by_type _ missing = none
  initial_by_type FieldType.boolean is_true = none
  initial_by_type FieldType.boolean is_false = none
  initial_by_type FieldType.date between = some current_date_time_range
  initial_by_type _ between =
      some (number_range (record { min = of_unsigned 0; max = of_unsigned 0 }))
  initial_by_type _ not_between =
      some (number_range (record { min = of_unsigned 0; max = of_unsigned 0 }))
  initial_by_type FieldType.date recent_hours = some (duration_hours (pos 24))
  initial_by_type FieldType.date recent_days = some (duration_days (pos 7))
  initial_by_type _ in_set = some (text_list ("" ∷ []))
  initial_by_type _ not_in_set = some (text_list ("" ∷ []))
  initial_by_type _ in_any = some (text_list ("" ∷ []))
  initial_by_type _ not_in_any = some (text_list ("" ∷ []))
  initial_by_type _ contains_any_tag = some (text_list ("" ∷ []))
  initial_by_type _ contains_all_tags = some (text_list ("" ∷ []))
  initial_by_type _ excludes_any_tag = some (text_list ("" ∷ []))
  initial_by_type _ not_contains_all_tags = some (text_list ("" ∷ []))
  initial_by_type _ equals_tag_set = some (text_list ("" ∷ []))
  initial_by_type FieldType.number equals = some (number (of_unsigned 0))
  initial_by_type FieldType.number not_equals = some (number (of_unsigned 0))
  initial_by_type FieldType.number greater_than = some (number (of_unsigned 0))
  initial_by_type FieldType.number greater_than_or_equal = some (number (of_unsigned 0))
  initial_by_type FieldType.number less_than = some (number (of_unsigned 0))
  initial_by_type FieldType.number less_than_or_equal = some (number (of_unsigned 0))
  initial_by_type FieldType.tags count_equals = some (number (of_unsigned 0))
  initial_by_type FieldType.tags count_greater_than_or_equal = some (number (of_unsigned 0))
  initial_by_type FieldType.tags count_less_than_or_equal = some (number (of_unsigned 0))
  initial_by_type FieldType.date before = some current_date_time
  initial_by_type FieldType.date after = some current_date_time
  initial_by_type FieldType.text _ = some (text "")
  initial_by_type FieldType.category _ = some (text "")
  initial_by_type FieldType.tags _ = some (text "")
  initial_by_type _ _ = none

  -- The first offered value, for the operators that take one.
  initial_by_option : RuleValueOption → RuleOperator → Option RuleInitialValue
  initial_by_option option equals = some (text option.value)
  initial_by_option option not_equals = some (text option.value)
  initial_by_option option in_any = some (text_list (option.value ∷ []))
  initial_by_option option not_in_any = some (text_list (option.value ∷ []))
  initial_by_option option _ = none

  initial_offered : List RuleValueOption → RuleOperator → Option RuleInitialValue
  unfolding initial_by_option
  initial_offered [] operator = none
  initial_offered (option ∷ _) operator = initial_by_option option operator

  unfoldable pub initial_value : RuleField → FieldType → RuleOperator → Option RuleInitialValue
  unfolding initial_by_type initial_offered value_options
  initial_value field field_type operator = elim (initial_offered (value_options field) operator) [
    | some value ↦ some value
    | none ↦ initial_by_type field_type operator
  ]

  abbrev then_some : {A : Type 0} → Bool → A → Option A
  then_some true a = some a
  then_some false a = none

  operator_catalog : RuleField → RuleOperator → RuleOperatorCatalog
  unfolding initial_value requires_value value_type
  operator_catalog field operator = record {
    value = operator;
    requires_value = requires_value operator;
    initial_value = initial_value field (value_type field) operator;
  }

  abbrev is_tags_type : FieldType → Bool
  is_tags_type FieldType.tags = true
  is_tags_type _ = false

  unfoldable pub field_catalog : RuleField → RuleFieldCatalog
  unfolding operator_catalog value_options value_type scope for_type
  field_catalog field =
      let field_type = value_type field in
      record {
        value = field;
        value_type = field_type;
        scope = scope field;
        options = value_options field;
        operators = map (operator_catalog field) (for_type field_type);
        case_sensitive = then_some (is_text_or_tags field_type) false;
        tag_scope = then_some (is_tags_type field_type) original_and_translation;
        page_quantifier = then_some (is_page (scope field)) any_page;
      }

  unfoldable pub rule_catalog : RuleCatalog
  unfolding field_catalog
  rule_catalog = record {
    schema_version = current_schema_version;
    fields = map field_catalog all_fields;
  }
