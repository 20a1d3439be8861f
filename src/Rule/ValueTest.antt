-- ===== src/Rule/ValueTest.antt =====
-- The test of one value against one condition (`evaluate_value` of rule/evaluator.rs).
pub mod Complement
pub mod Total
use pixiv_archive.Prelude
use pixiv_archive.Prelude.{
  ℕ, List, [], ◌∷◌, ◌++◌, map, Bool, true, false, not, ◌&&◌, ◌||◌, Option, none, some, String,
  str_eq, if◌then◌else◌, is_some, is_none, all, any, length, sort, Outcome, ok, expect, ◌>>=◌,
}
use pixiv_archive.Prelude.Int.{ℤ}
use pixiv_archive.Rule.Platform.{Platform}
use pixiv_archive.Rule.Operator.{
  RuleOperator, equals, not_equals, greater_than, greater_than_or_equal, less_than,
  less_than_or_equal, between, not_between, contains, not_contains, starts_with, ends_with, in_set,
  not_in_set, in_any, not_in_any, contains_any_tag, contains_all_tags, excludes_any_tag,
  not_contains_all_tags, equals_tag_set, tag_name_contains, tag_name_not_contains, count_equals,
  count_greater_than_or_equal, count_less_than_or_equal, before, after, recent_hours, recent_days,
  is_true, is_false, exists, missing,
}
use pixiv_archive.Rule.Value.{ConditionValue, FieldValue}
use pixiv_archive.Rule.Schema.{Condition}
use pixiv_archive.Rule.Compare.{
  Evaluated, has_text, same_texts, equals_pair, number_pair, number_between_pair, date_between_pair,
  text_pair, text_set_pair, date_pair, tags_pair, tag_text_pair, tag_count_pair,
}

module _ ⦃P : Platform⦄ where
  open P use {
    Number, number_lt, number_le, Instant, instant_lt, instant_le, minus_hours, minus_days,
  }

  -- A match that needs both values, and is false where one is absent.
  abbrev on_pair :
      (FieldValue → ConditionValue → Bool) → Option FieldValue → Option ConditionValue → Bool
  on_pair test (some left) (some right) = test left right
  on_pair test _ _ = false

  abbrev is_boolean : Bool → Option FieldValue → Bool
  is_boolean true (some (FieldValue.boolean b)) = b
  is_boolean false (some (FieldValue.boolean b)) = not b
  is_boolean _ _ = false

  -- The amount is used with the unit of the operator, whichever unit the value names.
  abbrev pub amount_of : Option ConditionValue → Option ℤ
  amount_of (some (ConditionValue.duration_hours value)) = some value
  amount_of (some (ConditionValue.duration_days value)) = some value
  amount_of _ = none

  recent_date : (Instant → ℤ → Option Instant) → ℤ → Option FieldValue → Instant → Evaluated Bool
  recent_date minus amount (some (FieldValue.date left)) now = do
    start ← expect (minus now amount)
    ok (instant_le start left && instant_le left now)
  recent_date minus amount _ now = ok false

  recent :
      (Instant → ℤ → Option Instant)
      → Option ConditionValue
      → Option FieldValue
      → Instant
      → Evaluated Bool
  unfolding recent_date
  recent minus wanted value now = elim (amount_of wanted) [
    | none ↦ ok false
    | some amount ↦ recent_date minus amount value now
  ]

  abbrev excludes_text : String → String → Bool
  excludes_text left right = not (Prelude.contains left right)

  abbrev includes_any : List String → List String → Bool
  includes_any tags expected = any (has_text tags) expected

  abbrev includes_all : List String → List String → Bool
  includes_all tags expected = all (has_text tags) expected

  abbrev excludes_all : List String → List String → Bool
  excludes_all tags expected = all (λ item. not (has_text tags item)) expected

  abbrev excludes_some : List String → List String → Bool
  excludes_some tags expected = not (all (has_text tags) expected)

  -- `left >= right`, `left > right` and `left == right` of floats and of instants.
  abbrev number_ge : Number → Number → Bool
  number_ge left right = number_le right left

  abbrev number_gt : Number → Number → Bool
  number_gt left right = number_lt right left

  abbrev number_eq : Number → Number → Bool
  number_eq left right = number_le left right && number_le right left

  abbrev instant_gt : Instant → Instant → Bool
  instant_gt left right = instant_lt right left

  -- `tag_text_match` and `tag_text_all`.
  abbrev some_text : (String → Bool) → List String → Bool
  some_text = any

  abbrev every_text : (String → Bool) → List String → Bool
  every_text = all

  -- The match of `evaluate_value` on the operator.
  test_operator : RuleOperator → Condition → Option FieldValue → Instant → Evaluated Bool
  unfolding equals_pair number_pair number_between_pair date_between_pair text_pair text_set_pair
      date_pair tags_pair tag_text_pair tag_count_pair recent
  test_operator exists c v now = ok (is_some v)
  test_operator missing c v now = ok (is_none v)
  test_operator is_true c v now = ok (is_boolean true v)
  test_operator is_false c v now = ok (is_boolean false v)
  test_operator equals c v now = ok (on_pair (equals_pair c.case_sensitive) v c.value)
  test_operator not_equals c v now =
      ok (is_some v && not (on_pair (equals_pair c.case_sensitive) v c.value))
  test_operator greater_than c v now = ok (on_pair (number_pair number_gt) v c.value)
  test_operator greater_than_or_equal c v now = ok (on_pair (number_pair number_ge) v c.value)
  test_operator less_than c v now = ok (on_pair (number_pair number_lt) v c.value)
  test_operator less_than_or_equal c v now = ok (on_pair (number_pair number_le) v c.value)
  test_operator between c v now =
      ok (
        on_pair (number_between_pair false) v c.value
        || on_pair (date_between_pair false) v c.value)
  test_operator not_between c v now =
      ok
        (on_pair (number_between_pair true) v c.value || on_pair (date_between_pair true) v c.value)
  test_operator contains c v now =
      ok (on_pair (text_pair c.case_sensitive Prelude.contains) v c.value)
  test_operator not_contains c v now =
      ok (on_pair (text_pair c.case_sensitive excludes_text) v c.value)
  test_operator starts_with c v now =
      ok (on_pair (text_pair c.case_sensitive Prelude.starts_with) v c.value)
  test_operator ends_with c v now =
      ok (on_pair (text_pair c.case_sensitive Prelude.ends_with) v c.value)
  test_operator in_set c v now = ok (on_pair (text_set_pair c.case_sensitive false) v c.value)
  test_operator in_any c v now = ok (on_pair (text_set_pair c.case_sensitive false) v c.value)
  test_operator not_in_set c v now = ok (on_pair (text_set_pair c.case_sensitive true) v c.value)
  test_operator not_in_any c v now = ok (on_pair (text_set_pair c.case_sensitive true) v c.value)
  test_operator contains_any_tag c v now =
      ok (on_pair (tags_pair c.case_sensitive c.tag_scope includes_any) v c.value)
  test_operator contains_all_tags c v now =
      ok (on_pair (tags_pair c.case_sensitive c.tag_scope includes_all) v c.value)
  test_operator excludes_any_tag c v now =
      ok (on_pair (tags_pair c.case_sensitive c.tag_scope excludes_all) v c.value)
  test_operator not_contains_all_tags c v now =
      ok (on_pair (tags_pair c.case_sensitive c.tag_scope excludes_some) v c.value)
  test_operator equals_tag_set c v now =
      ok (on_pair (tags_pair c.case_sensitive c.tag_scope same_texts) v c.value)
  test_operator tag_name_contains c v now =
      ok (on_pair (tag_text_pair c.case_sensitive c.tag_scope some_text Prelude.contains) v c.value)
  test_operator tag_name_not_contains c v now =
      ok (on_pair (tag_text_pair c.case_sensitive c.tag_scope every_text excludes_text) v c.value)
  test_operator count_equals c v now = ok (on_pair (tag_count_pair number_eq) v c.value)
  test_operator count_greater_than_or_equal c v now =
      ok (on_pair (tag_count_pair number_ge) v c.value)
  test_operator count_less_than_or_equal c v now = ok (on_pair (tag_count_pair number_le) v c.value)
  test_operator before c v now = ok (on_pair (date_pair instant_lt) v c.value)
  test_operator after c v now = ok (on_pair (date_pair instant_gt) v c.value)
  test_operator recent_hours c v now = recent minus_hours c.value v now
  test_operator recent_days c v now = recent minus_days c.value v now

  unfoldable pub evaluate_value : Condition → Option FieldValue → Instant → Evaluated Bool
  unfolding test_operator
  evaluate_value condition value now = test_operator condition.operator condition value now
