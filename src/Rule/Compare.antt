-- ===== src/Rule/Compare.antt =====
-- One value against one condition (`evaluate_value` of rule/evaluator.rs and what it calls).
use pixiv_archive.Prelude.{
  ℕ, List, [], ◌∷◌, ◌++◌, map, Bool, true, false, not, ◌&&◌, Option, none, some, String, str_eq,
  if◌then◌else◌, any, length, sort, Outcome,
}
use pixiv_archive.Rule.Platform.{Platform}
use pixiv_archive.Rule.Value.{ConditionValue, TagValue, FieldValue}
use pixiv_archive.Rule.Schema.{TagScope, original_and_translation}

pub data EvaluationError : Type 0 where
  page_metadata_required : ℕ → EvaluationError

abbrev pub Evaluated : Type 0 → Type 0
Evaluated A = Outcome EvaluationError A

-- `contains != invert`.
abbrev pub differs : Bool → Bool → Bool
differs a true = not a
differs a false = a

-- `tags.contains(item)` and `tags == expected` on slices of strings.
abbrev pub has_text : List String → String → Bool
has_text tags item = any (λ tag. str_eq tag item) tags

abbrev pub same_texts : List String → List String → Bool
same_texts [] [] = true
same_texts (s ∷ ss) (t ∷ ts) = str_eq s t && same_texts ss ts
same_texts _ _ = false

-- `condition.case_sensitive.unwrap_or(false)`, and the test of the tag scope.
abbrev pub or_false : Option Bool → Bool
or_false none = false
or_false (some b) = b

abbrev pub with_translation : Option TagScope → Bool
with_translation (some original_and_translation) = true
with_translation _ = false

module _ ⦃P : Platform⦄ where
  open P use {
    Number, number_lt, number_le, within_epsilon, of_unsigned, Instant, instant_eq, instant_lt,
    instant_le, minus_hours, minus_days, nfkc, to_lowercase,
  }

  unfoldable pub normalize : String → Option Bool → String
  normalize value case_sensitive =
      let normalized = nfkc value in
      if or_false case_sensitive then normalized else to_lowercase normalized

  -- The names that one tag contributes.
  translated : Option Bool → Option String → List String
  unfolding normalize
  translated cs none = []
  translated cs (some translation) = normalize translation cs ∷ []

  tag_names : Option Bool → Option TagScope → TagValue → List String
  unfolding normalize translated
  tag_names cs scope tag =
      normalize tag.original cs
      ∷ (if with_translation scope then translated cs tag.translation else [])

  unfoldable pub normalized_tags : Option Bool → Option TagScope → List TagValue → List String
  unfolding tag_names
  normalized_tags cs scope [] = []
  normalized_tags cs scope (tag ∷ tags) = tag_names cs scope tag ++ normalized_tags cs scope tags

  same_normalized : Option Bool → String → String → Bool
  unfolding normalize
  same_normalized case_sensitive left right =
      str_eq (normalize left case_sensitive) (normalize right case_sensitive)

  -- The matches on the pair of the field's value and the condition's.
  unfoldable pub equals_pair : Option Bool → FieldValue → ConditionValue → Bool
  unfolding same_normalized
  equals_pair cs (FieldValue.number left) (ConditionValue.number right) = within_epsilon left right
  equals_pair cs (FieldValue.text left) (ConditionValue.text right) = same_normalized cs left right
  equals_pair cs (FieldValue.category left) (ConditionValue.text right) =
      same_normalized cs left right
  equals_pair cs (FieldValue.date left) (ConditionValue.date right) = instant_eq left right
  equals_pair cs _ _ = false

  unfoldable pub number_pair : (Number → Number → Bool) → FieldValue → ConditionValue → Bool
  number_pair compare (FieldValue.number left) (ConditionValue.number right) = compare left right
  number_pair compare _ _ = false

  unfoldable pub number_between_pair : Bool → FieldValue → ConditionValue → Bool
  number_between_pair invert (FieldValue.number left) (ConditionValue.number_range range) =
      differs (number_le range.min left && number_le left range.max) invert
  number_between_pair invert _ _ = false

  unfoldable pub date_between_pair : Bool → FieldValue → ConditionValue → Bool
  date_between_pair invert (FieldValue.date left) (ConditionValue.date_range range) =
      differs (instant_le range.start left && instant_le left range.end) invert
  date_between_pair invert _ _ = false

  unfoldable pub text_pair :
      Option Bool → (String → String → Bool) → FieldValue → ConditionValue → Bool
  unfolding normalize
  text_pair cs compare (FieldValue.text left) (ConditionValue.text right) =
      compare (normalize left cs) (normalize right cs)
  text_pair cs compare (FieldValue.category left) (ConditionValue.text right) =
      compare (normalize left cs) (normalize right cs)
  text_pair cs compare _ _ = false

  in_texts : Option Bool → Bool → String → List String → Bool
  unfolding normalize
  in_texts cs invert left items =
      differs (any (λ item. str_eq (normalize item cs) (normalize left cs)) items) invert

  unfoldable pub text_set_pair : Option Bool → Bool → FieldValue → ConditionValue → Bool
  unfolding in_texts
  text_set_pair cs invert (FieldValue.text left) (ConditionValue.text_list items) =
      in_texts cs invert left items
  text_set_pair cs invert (FieldValue.category left) (ConditionValue.text_list items) =
      in_texts cs invert left items
  text_set_pair cs invert _ _ = false

  unfoldable pub date_pair : (Instant → Instant → Bool) → FieldValue → ConditionValue → Bool
  date_pair compare (FieldValue.date left) (ConditionValue.date right) = compare left right
  date_pair compare _ _ = false

  unfoldable pub tags_pair :
      Option Bool
      → Option TagScope
      → (List String → List String → Bool)
      → FieldValue
      → ConditionValue
      → Bool
  unfolding normalized_tags normalize
  tags_pair cs scope compare (FieldValue.tags tags) (ConditionValue.text_list expected) =
      compare (sort (normalized_tags cs scope tags))
        (sort (map (λ item. normalize item cs) expected))
  tags_pair cs scope compare _ _ = false

  -- `any` in `tag_text_match`, `all` in `tag_text_all`.
  unfoldable pub tag_text_pair :
      Option Bool
      → Option TagScope
      → ((String → Bool) → List String → Bool)
      → (String → String → Bool)
      → FieldValue
      → ConditionValue
      → Bool
  unfolding normalized_tags normalize
  tag_text_pair cs scope quantify compare (FieldValue.tags tags) (ConditionValue.text needle) =
      quantify (λ tag. compare tag (normalize needle cs)) (normalized_tags cs scope tags)
  tag_text_pair cs scope quantify compare _ _ = false

  unfoldable pub tag_count_pair : (Number → Number → Bool) → FieldValue → ConditionValue → Bool
  tag_count_pair compare (FieldValue.tags tags) (ConditionValue.number expected) =
      compare (of_unsigned (length tags)) expected
  tag_count_pair compare _ _ = false
