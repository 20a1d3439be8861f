-- ===== src/Rule/Operator.antt =====
-- The actions, group modes and operators of a rule (rule/operator.rs).
pub mod Laws
use pixiv_archive.Prelude.{
  List, [], ◌∷◌, Bool, true, false, Option, none, some, String, str_eq, if◌then◌else◌, any,
}
use pixiv_archive.Rule.Field.{FieldType, number, text, category, date, boolean}

pub data RuleAction : Type 0 where
  download metadata_only ignore : RuleAction

unfoldable pub as_str : RuleAction → String
as_str download = "download"
as_str metadata_only = "metadata_only"
as_str ignore = "ignore"

unfoldable pub from_db_value : String → Option RuleAction
from_db_value value =
    if str_eq value "download"
    then some download
    else if str_eq value "metadata_only"
    then some metadata_only
    else if str_eq value "ignore"
    then some ignore
    else none

pub data GroupMode : Type 0 where
  all_of any_of : GroupMode

pub data RuleOperator : Type 0 where
  equals not_equals greater_than greater_than_or_equal less_than less_than_or_equal between
        not_between contains not_contains starts_with ends_with in_set not_in_set in_any not_in_any
        contains_any_tag contains_all_tags excludes_any_tag not_contains_all_tags equals_tag_set
        tag_name_contains tag_name_not_contains count_equals count_greater_than_or_equal
        count_less_than_or_equal before after recent_hours recent_days is_true is_false exists
        missing :
      RuleOperator

pub RuleOperator-discrete : Discrete RuleOperator
RuleOperator-discrete = hlevel

-- `RuleOperator::ALL`.
abbrev pub all_operators : List RuleOperator
all_operators =
    equals ∷ not_equals ∷ greater_than ∷ greater_than_or_equal ∷ less_than ∷ less_than_or_equal
    ∷ between ∷ not_between ∷ contains ∷ not_contains ∷ starts_with ∷ ends_with ∷ in_set
    ∷ not_in_set ∷ in_any ∷ not_in_any ∷ contains_any_tag ∷ contains_all_tags ∷ excludes_any_tag
    ∷ not_contains_all_tags ∷ equals_tag_set ∷ tag_name_contains ∷ tag_name_not_contains
    ∷ count_equals ∷ count_greater_than_or_equal ∷ count_less_than_or_equal ∷ before ∷ after
    ∷ recent_hours ∷ recent_days ∷ is_true ∷ is_false ∷ exists ∷ missing ∷ []

unfoldable pub for_type : FieldType → List RuleOperator
for_type number =
    equals ∷ not_equals ∷ greater_than ∷ greater_than_or_equal ∷ less_than ∷ less_than_or_equal
    ∷ between ∷ not_between ∷ exists ∷ missing ∷ []
for_type text =
    equals ∷ not_equals ∷ contains ∷ not_contains ∷ starts_with ∷ ends_with ∷ in_set ∷ not_in_set
    ∷ exists ∷ missing ∷ []
for_type category = equals ∷ not_equals ∷ in_any ∷ not_in_any ∷ exists ∷ missing ∷ []
for_type FieldType.tags =
    contains_any_tag ∷ contains_all_tags ∷ excludes_any_tag ∷ not_contains_all_tags ∷ equals_tag_set
    ∷ tag_name_contains ∷ tag_name_not_contains ∷ count_equals ∷ count_greater_than_or_equal
    ∷ count_less_than_or_equal ∷ exists ∷ missing ∷ []
for_type date = before ∷ after ∷ between ∷ recent_hours ∷ recent_days ∷ exists ∷ missing ∷ []
for_type boolean = is_true ∷ is_false ∷ exists ∷ missing ∷ []

same_operator : RuleOperator → RuleOperator → Bool
unfolding RuleOperator-discrete
same_operator a b = elim (RuleOperator-discrete a b) [ yes _ ↦ true | no _ ↦ false ]

unfoldable pub supports : RuleOperator → FieldType → Bool
unfolding same_operator for_type
supports operator field_type = any (same_operator operator) (for_type field_type)

unfoldable pub requires_value : RuleOperator → Bool
requires_value exists = false
requires_value missing = false
requires_value is_true = false
requires_value is_false = false
requires_value _ = true
