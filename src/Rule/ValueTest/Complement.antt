-- ===== src/Rule/ValueTest/Complement.antt =====
-- The operators that come in pairs, one the negation of the other.
use pixiv_archive.Prelude
use pixiv_archive.Prelude.{
  ap, List, [], ◌∷◌, ◌≡◌, refl, Bool, true, false, not, ◌&&◌, ◌||◌, Option, none, some, ok, err,
  panicked, all, any, arith, and_split, sort, map,
}
use pixiv_archive.Rule.Compare.{
  Evaluated, normalize, normalized_tags, tags_pair, tag_text_pair, has_text,
}
use pixiv_archive.Rule.Platform.{Platform}
use pixiv_archive.Rule.Field.{FieldType}
use pixiv_archive.Rule.Operator.{
  RuleOperator, equals, not_equals, between, not_between, contains, not_contains, in_set,
  not_in_set, in_any, not_in_any, contains_any_tag, contains_all_tags, excludes_any_tag,
  not_contains_all_tags, tag_name_contains, tag_name_not_contains, is_true, is_false, exists,
  missing,
}
use pixiv_archive.Rule.Value.{TagValue, ConditionValue, FieldValue}
use pixiv_archive.Rule.Schema.{TagScope, Condition}
use pixiv_archive.Rule.Validation.{
  is_text, is_text_list, value_shape_matches, value_matches_condition,
}
use pixiv_archive.Rule.ValueTest.{
  on_pair, excludes_all, includes_any, every_text, some_text, excludes_text, evaluate_value,
}

pub data Complement : RuleOperator → RuleOperator → Type 0 where
  equal : Complement equals not_equals
  inside : Complement between not_between
  containing : Complement contains not_contains
  in_texts : Complement in_set not_in_set
  in_categories : Complement in_any not_in_any
  any_tag : Complement contains_any_tag excludes_any_tag
  all_tags : Complement contains_all_tags not_contains_all_tags
  tag_name : Complement tag_name_contains tag_name_not_contains
  truth : Complement is_true is_false
  presence : Complement exists missing

all-not : {A : Type 0} (p : A → Bool) (xs : List A) → all (λ x. not (p x)) xs ≡ not (any p xs)
all-not p [] = refl
all-not p (x ∷ xs) = ground (arith, all-not p xs)

module _ ⦃P : Platform⦄ where
  open P use {Instant}

  unfoldable pub type_of : FieldValue → FieldType
  type_of (FieldValue.number _) = FieldType.number
  type_of (FieldValue.text _) = FieldType.text
  type_of (FieldValue.category _) = FieldType.category
  type_of (FieldValue.tags _) = FieldType.tags
  type_of (FieldValue.date _) = FieldType.date
  type_of (FieldValue.boolean _) = FieldType.boolean

  -- The negation of a test that succeeds.
  abbrev pub negated : Evaluated Bool → Evaluated Bool
  negated (ok b) = ok (not b)
  negated (err e) = err e
  negated panicked = panicked

  module _ (cs : Option Bool) (scope : Option TagScope) (tags : List TagValue) where
    opposed_tags :
        (value : Option ConditionValue)
        → is_text_list value ≡ true
        → on_pair (tags_pair cs scope excludes_all) (some (FieldValue.tags tags)) value
          ≡ not (on_pair (tags_pair cs scope includes_any) (some (FieldValue.tags tags)) value)
    unfolding tags_pair
    opposed_tags (some (ConditionValue.text_list items)) h =
        all-not (has_text (sort (normalized_tags cs scope tags)))
          (sort (map (λ item. normalize item cs) items))
    opposed_tags _ h = cc

    opposed_names :
        (value : Option ConditionValue)
        → is_text value ≡ true
        → on_pair
            (tag_text_pair cs scope every_text excludes_text)
            (some (FieldValue.tags tags))
            value
          ≡ not (
              on_pair
                (tag_text_pair cs scope some_text Prelude.contains)
                (some (FieldValue.tags tags))
                value)
    unfolding tag_text_pair
    opposed_names (some (ConditionValue.text needle)) h =
        all-not (λ tag. Prelude.contains tag (normalize needle cs)) (normalized_tags cs scope tags)
    opposed_names _ h = cc

  -- The test of a value when the condition's operator is replaced.
  abbrev tested : Condition → Instant → FieldValue → RuleOperator → Evaluated Bool
  tested c now v operator = evaluate_value (record c { operator = operator }) (some v) now

  opposed :
      (c : Condition) (now : Instant) (op op' : RuleOperator) (v : FieldValue)
      → Complement op op'
      → value_shape_matches (type_of v) op c.value ≡ true
      → tested c now v op' ≡ negated (tested c now v op)
  unfolding evaluate_value value_shape_matches type_of
  opposed c now _ _ (FieldValue.number x) equal h = ground arith
  opposed c now _ _ (FieldValue.number x) inside h = ground arith
  opposed c now _ _ (FieldValue.date x) inside h = ground arith
  opposed c now _ _ (FieldValue.text x) equal h = ground arith
  opposed c now _ _ (FieldValue.text x) containing h = ground arith
  opposed c now _ _ (FieldValue.text x) in_texts h = ground arith
  opposed c now _ _ (FieldValue.category x) equal h = ground arith
  opposed c now _ _ (FieldValue.category x) in_categories h = ground arith
  opposed c now _ _ (FieldValue.boolean x) truth h = ground arith
  opposed c now _ _ (FieldValue.tags x) all_tags h = ground arith
  opposed c now _ _ (FieldValue.tags x) any_tag h =
      ap ok (opposed_tags c.case_sensitive c.tag_scope x c.value h)
  opposed c now _ _ (FieldValue.tags x) tag_name h =
      ap ok (opposed_names c.case_sensitive c.tag_scope x c.value h)
  opposed c now _ _ v presence h = refl
  opposed c now _ _ _ _ h = cc

  -- On a present value, with a comparison value whose shape the validation accepts for the positive
  -- operator, the negative operator of a pair succeeds with exactly the opposite result. The two
  -- conditions differ in their operator alone.
  pub evaluate_value-Complement :
      (c : Condition) (now : Instant) (op op' : RuleOperator) (v : FieldValue)
      → Complement op op'
      → value_matches_condition (type_of v) op c.value ≡ true
      → evaluate_value (record c { operator = op' }) (some v) now
        ≡ negated (evaluate_value (record c { operator = op }) (some v) now)
  unfolding value_matches_condition
  evaluate_value-Complement c now op op' v pair h = opposed c now op op' v pair (and_split _ _ h).0
