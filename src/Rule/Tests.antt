-- ===== src/Rule/Tests.antt =====
-- The rule engine at concrete inputs: a platform where numbers and instants are natural numbers
-- and an instant counts hours, a work with two pages, and a rule that matches it.
use pixiv_archive.Prelude.{
  ℕ, ◌-◌, ◌+◌, ◌*◌, suc, [], ◌∷◌, ◌≡◌, refl, ◌↔◌, true, false, Option, none, some, if◌then◌else◌,
  ltb, leb, ◌==◌, get_elem?, is_blank,
}
use pixiv_archive.Prelude.Int.{ℤ, pos, negsuc}
use pixiv_archive.Rule.Platform.{Platform}
use pixiv_archive.Rule.Field.{FieldScope, RuleField, published_at, page_width, scope, value_type}
use pixiv_archive.Rule.Operator.{
  download, ignore, all_of, any_of, contains_any_tag, excludes_any_tag, greater_than_or_equal,
  recent_hours, supports,
}
use pixiv_archive.Rule.Value.{ConditionValue, FieldValue}
use pixiv_archive.Rule.Schema.{
  all_pages, original_and_translation, ConditionPath, Condition, ConditionGroup, RuleDefinition,
  invalid_condition,
}
use pixiv_archive.Rule.Validation.{
  validate, Validated, validate_groups, validate_group, validate_conditions, validate_condition,
  value_matches_condition, value_matches_options,
}
use pixiv_archive.Rule.Validation.Laws.{IsValid, validate_iff, IsWellFormed}
use pixiv_archive.Rule.Validation.Blame.{validate_blames}
use pixiv_archive.Rule.Candidate.{
  PageRuleMetadata, RuleCandidate, EvaluationContext, work_value, page_value,
}
use pixiv_archive.Rule.Candidate.Types.{work_value-typed, page_value-typed}
use pixiv_archive.Rule.ValueTest.{evaluate_value}
use pixiv_archive.Rule.ValueTest.Complement.{
  type_of, negated, Complement, evaluate_value-Complement,
}

abbrev natural : ℤ → ℕ
natural (pos n) = n
natural (negsuc n) = 0

abbrev earlier : ℕ → ℕ → ℤ → Option ℕ
earlier unit now (pos n) = if leb (unit * n) now then some (now - unit * n) else none
earlier unit now (negsuc n) = some (now + unit * suc n)

instance abbrev pub hours_platform : Platform
hours_platform = record {
  Number = ℕ;
  number_lt = ltb;
  number_le = leb;
  is_finite = λ n. true;
  within_epsilon = λ a b. a == b;
  of_i64 = natural;
  of_unsigned = λ n. n;
  Instant = ℕ;
  instant_eq = λ a b. a == b;
  instant_lt = ltb;
  instant_le = leb;
  minus_hours = earlier 1;
  minus_days = earlier 24;
  nfkc = λ s. s;
  to_lowercase = λ s. s;
}

abbrev pub page : ℕ → PageRuleMetadata
page width = record {
  original_extension = some "png";
  width = some width;
  height = some 10;
  aspect_ratio = none;
  orientation = none;
}

abbrev cat_work : RuleCandidate
cat_work = record {
  pixiv_work_id = pos 77;
  content_type = "illustration";
  title = some "cats";
  description = none;
  artist_id = some (pos 5);
  artist_name = none;
  published_at = some 90;
  updated_at = none;
  tags = record { original = "猫"; translation = some "cat" } ∷ [];
  page_count = 2;
  age_rating = some "all_age";
  ai_generated = some false;
  original_work = none;
  bookmarked_by_current_account = none;
  bookmark_count = some 12;
  view_count = none;
  like_count = none;
  comment_count = none;
  bookmark_rate = none;
  bookmarks_per_day = none;
  ranking_rank = none;
  ranking_date = none;
  series_id = none;
  series_title = none;
  series_order = none;
  pages = record { metadata = some (page 1000) } ∷ record { metadata = some (page 1200) } ∷ [];
}

abbrev pub at_100 : EvaluationContext
at_100 = record { now = 100; candidate = cat_work }

abbrev pub tagged_cat : Condition
tagged_cat = record {
  field = RuleField.tags;
  operator = contains_any_tag;
  value = some (ConditionValue.text_list ("cat" ∷ "dog" ∷ []));
  case_sensitive = some true;
  tag_scope = some original_and_translation;
  page_quantifier = none;
}

abbrev pub wide_pages : Condition
wide_pages = record {
  field = page_width;
  operator = greater_than_or_equal;
  value = some (ConditionValue.number 1000);
  case_sensitive = none;
  tag_scope = none;
  page_quantifier = some all_pages;
}

abbrev group : ConditionGroup
group = record { mode = all_of; conditions = tagged_cat ∷ wide_pages ∷ [] }

abbrev pub recent_publication : Condition
recent_publication = record {
  field = published_at;
  operator = recent_hours;
  value = some (ConditionValue.duration_hours (pos 24));
  case_sensitive = none;
  tag_scope = none;
  page_quantifier = none;
}

abbrev pub recent_group : ConditionGroup
recent_group = record { mode = any_of; conditions = recent_publication ∷ tagged_cat ∷ [] }

abbrev pub cat_rule : RuleDefinition
cat_rule = record {
  schema_version = 1;
  id = 4;
  name = "cats";
  enabled = true;
  group_mode = all_of;
  groups = group ∷ recent_group ∷ [];
  action = download;
  default_action = ignore;
}

-- The second condition of the group has lost its page quantifier.
abbrev broken_rule : RuleDefinition
broken_rule = record cat_rule {
  groups =
      record {
        mode = all_of;
        conditions = tagged_cat ∷ record wide_pages { page_quantifier = none } ∷ [];
      }
      ∷ [];
}

abbrev blamed_path : ConditionPath
blamed_path = record { group_index = 0; condition_index = 1 }

broken_rule_rejected :
    validate broken_rule
    ≡ Validated.err
        (invalid_condition blamed_path "page-scoped condition requires a page quantifier")
unfolding validate validate_groups validate_group validate_conditions validate_condition scope
    value_type supports value_matches_condition value_matches_options is_blank
broken_rule_rejected = refl

abbrev pub cat_tags : FieldValue
cat_tags = FieldValue.tags (record { original = "猫"; translation = some "cat" } ∷ [])

cat_tags_shape : value_matches_condition (type_of cat_tags) contains_any_tag tagged_cat.value ≡ true
unfolding value_matches_condition type_of
cat_tags_shape = refl

published_at_value : work_value published_at cat_work ≡ some (FieldValue.date 90)
unfolding work_value
published_at_value = refl

page_width_value : page_value page_width cat_work (page 1000) ≡ some (FieldValue.number 1000)
unfolding page_value
page_width_value = refl

validate_iff_example : (validate cat_rule ≡ Validated.ok) ↔ IsValid cat_rule
validate_iff_example = validate_iff cat_rule

validate_blames_example :
    (g : ConditionGroup) × (get_elem? broken_rule.groups 0 ≡ some g)
    × (c : Condition) × (get_elem? g.conditions 1 ≡ some c)
    × ¬ IsWellFormed c
validate_blames_example =
    validate_blames blamed_path "page-scoped condition requires a page quantifier" broken_rule
      broken_rule_rejected

work_value-typed_example :
    (type_of (FieldValue.date 90) ≡ value_type published_at)
    × (scope published_at ≡ FieldScope.work)
work_value-typed_example = work_value-typed published_at cat_work published_at_value

page_value-typed_example : type_of (FieldValue.number 1000) ≡ value_type page_width
page_value-typed_example = page_value-typed page_width cat_work (page 1000) page_width_value

evaluate_value-Complement_example :
    evaluate_value (record tagged_cat { operator = excludes_any_tag }) (some cat_tags) 100
    ≡ negated
        (evaluate_value (record tagged_cat { operator = contains_any_tag }) (some cat_tags) 100)
evaluate_value-Complement_example =
    evaluate_value-Complement tagged_cat 100 contains_any_tag excludes_any_tag cat_tags
      Complement.any_tag cat_tags_shape
