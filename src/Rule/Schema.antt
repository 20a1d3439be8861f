-- ===== src/Rule/Schema.antt =====
-- A rule and its validation (rule/schema.rs). `parse` is the decoding by serde followed by
-- `validate`; the decoding is a library's.
use pixiv_archive.Prelude.{ℕ, List, [], ◌∷◌, Bool, true, Option, none, some, String}
use pixiv_archive.Rule.Platform.{Platform}
use pixiv_archive.Rule.Field.{RuleField, pixiv_work_id}
use pixiv_archive.Rule.Operator.{RuleAction, GroupMode, all_of, RuleOperator, greater_than}
use pixiv_archive.Rule.Value.{ConditionValue}

pub data TagScope : Type 0 where
  original original_and_translation : TagScope

pub data PageQuantifier : Type 0 where
  any_page all_pages : PageQuantifier

abbrev pub current_schema_version : ℕ
current_schema_version = 1

pub record ConditionPath : Type 0 where
  pub group_index : ℕ
  pub condition_index : ℕ

-- The JSON error of serde is left out with the decoding.
pub data RuleError : Type 0 where
  unsupported_schema_version : ℕ → RuleError
  invalid_rule : String → RuleError
  invalid_group : ℕ → String → RuleError
  invalid_condition : ConditionPath → String → RuleError

module _ ⦃P : Platform⦄ where
  open P use {number_le, instant_le, is_finite, of_unsigned}

  pub record Condition : Type 0 where
    pub field : RuleField
    pub operator : RuleOperator
    pub value : Option ConditionValue
    pub case_sensitive : Option Bool
    pub tag_scope : Option TagScope
    pub page_quantifier : Option PageQuantifier

  pub record ConditionGroup : Type 0 where
    pub mode : GroupMode
    pub conditions : List Condition

  pub record RuleDefinition : Type 0 where
    pub schema_version : ℕ
    pub id : ℕ
    pub name : String
    pub enabled : Bool
    pub group_mode : GroupMode
    pub groups : List ConditionGroup
    pub action : RuleAction
    pub default_action : RuleAction

  unfoldable pub match_all : ℕ → String → RuleAction → RuleAction → RuleDefinition
  match_all id name action default_action = record {
    schema_version = current_schema_version;
    id = id;
    name = name;
    enabled = true;
    group_mode = all_of;
    groups =
        record {
          mode = all_of;
          conditions =
              record {
                field = pixiv_work_id;
                operator = greater_than;
                value = some (ConditionValue.number (of_unsigned 0));
                case_sensitive = none;
                tag_scope = none;
                page_quantifier = none;
              }
              ∷ [];
        }
        ∷ [];
    action = action;
    default_action = default_action;
  }
