-- ===== src/Rule/Value.antt =====
-- The values that a condition compares with, and those that a work's fields have (rule/value.rs).
use pixiv_archive.Prelude.{List, Bool, Option, String}
use pixiv_archive.Prelude.Int.{ℤ}
use pixiv_archive.Rule.Platform.{Platform}

module _ ⦃P : Platform⦄ where
  open P use {Number, Instant}

  pub record NumberRange : Type 0 where
    pub min : Number
    pub max : Number

  pub record TimeRange : Type 0 where
    pub start : Instant
    pub end : Instant

  pub data ConditionValue : Type 0 where
    number : Number → ConditionValue
    number_range : NumberRange → ConditionValue
    text : String → ConditionValue
    text_list : List String → ConditionValue
    date : Instant → ConditionValue
    date_range : TimeRange → ConditionValue
    duration_hours : ℤ → ConditionValue
    duration_days : ℤ → ConditionValue

pub record TagValue : Type 0 where
  pub original : String
  pub translation : Option String

module _ ⦃P : Platform⦄ where
  open P use {Number, Instant}

  pub data FieldValue : Type 0 where
    number : Number → FieldValue
    text : String → FieldValue
    category : String → FieldValue
    tags : List TagValue → FieldValue
    date : Instant → FieldValue
    boolean : Bool → FieldValue
