-- ===== src/Rule/Trace.antt =====
-- The record of an evaluation (rule/trace.rs).
use pixiv_archive.Prelude.{ℕ, List, [], Bool, Option, none, some, String}
use pixiv_archive.Rule.Platform.{Platform}
use pixiv_archive.Rule.Field.{RuleField}
use pixiv_archive.Rule.Operator.{RuleAction, GroupMode, RuleOperator}
use pixiv_archive.Rule.Value.{FieldValue}
use pixiv_archive.Rule.Schema.{PageQuantifier, Condition}

pub data RuleTraceState : Type 0 where
  skipped matched not_matched stopped_before_evaluation : RuleTraceState

pub data TraceEvaluationState : Type 0 where
  evaluated stopped_before_evaluation : TraceEvaluationState

module _ ⦃P : Platform⦄ where
  pub record PageConditionTrace : Type 0 where
    pub page_index : ℕ
    pub result : Bool
    pub value : Option FieldValue

  pub record ConditionTrace : Type 0 where
    pub condition_index : ℕ
    pub field : RuleField
    pub operator : RuleOperator
    pub page_quantifier : Option PageQuantifier
    pub result : Option Bool
    pub state : TraceEvaluationState
    pub value : Option FieldValue
    pub pages : List PageConditionTrace
    pub stopped_at_page_index : Option ℕ

  pub record GroupTrace : Type 0 where
    pub group_index : ℕ
    pub mode : GroupMode
    pub result : Option Bool
    pub state : TraceEvaluationState
    pub conditions : List ConditionTrace

  pub record RuleTrace : Type 0 where
    pub rule_index : ℕ
    pub rule_id : ℕ
    pub rule_name : String
    pub action : RuleAction
    pub group_mode : GroupMode
    pub state : RuleTraceState
    pub groups : List GroupTrace

  pub record EvaluationTrace : Type 0 where
    pub decision : RuleAction
    pub matched_rule_id : Option ℕ
    pub rules : List RuleTrace

  -- `ConditionTrace::result` and `ConditionTrace::stopped`.
  abbrev pub condition_result :
      ℕ → Condition → Bool → Option FieldValue → List PageConditionTrace → Option ℕ → ConditionTrace
  condition_result condition_index condition result value pages stopped_at_page_index = record {
    condition_index = condition_index;
    field = condition.field;
    operator = condition.operator;
    page_quantifier = condition.page_quantifier;
    result = some result;
    state = TraceEvaluationState.evaluated;
    value = value;
    pages = pages;
    stopped_at_page_index = stopped_at_page_index;
  }

  abbrev pub condition_stopped :
      ℕ → RuleField → RuleOperator → Option PageQuantifier → ConditionTrace
  condition_stopped condition_index field operator page_quantifier = record {
    condition_index = condition_index;
    field = field;
    operator = operator;
    page_quantifier = page_quantifier;
    result = none;
    state = TraceEvaluationState.stopped_before_evaluation;
    value = none;
    pages = [];
    stopped_at_page_index = none;
  }
