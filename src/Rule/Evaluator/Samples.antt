-- ===== src/Rule/Evaluator/Samples.antt =====
-- Two families of rules: the rule that matches every work, which the application creates, and the
-- rule with one recent-days condition.
use pixiv_archive.Prelude.{
  ℕ, [], ◌∷◌, ◌≡◌, sym, inl, inr, Bool-cases, Bool, true, false, none, some, String, ok, panicked,
  if◌then◌else◌, is_blank,
}
use pixiv_archive.Prelude.Int.{ℤ, is_positive}
use pixiv_archive.Rule.Platform.{Platform}
use pixiv_archive.Rule.Field.{
  FieldType, RuleField, scope, value_type, published_at, updated_at, ranking_date, pixiv_work_id,
}
use pixiv_archive.Rule.Operator.{RuleAction, all_of, supports, greater_than, recent_days}
use pixiv_archive.Rule.Value.{ConditionValue, FieldValue}
use pixiv_archive.Rule.Schema.{Condition, RuleDefinition, current_schema_version, match_all}
use pixiv_archive.Rule.Validation.{
  Validated, validate, validate_condition, validate_conditions, validate_group, validate_groups,
  value_matches_condition, value_matches_options,
}
use pixiv_archive.Rule.Candidate.{EvaluationContext, work_value}
use pixiv_archive.Rule.Candidate.Types.{work_value-typed}
use pixiv_archive.Rule.Trace.{TraceEvaluationState, condition_result}
use pixiv_archive.Rule.ValueTest.Complement.{type_of}
use pixiv_archive.Rule.ValueTest.{evaluate_value}
use pixiv_archive.Rule.Evaluator.{EvaluationDecision, conclude, evaluate}

module _ ⦃P : Platform⦄ where
  open P use {Number, Instant, number_lt, is_finite, of_i64, of_unsigned, minus_days}

  -- The one condition of `match_all`, and the decision with a trace of it.
  abbrev id_condition : Condition
  id_condition = record {
    field = pixiv_work_id;
    operator = greater_than;
    value = some (ConditionValue.number (of_unsigned 0));
    case_sensitive = none;
    tag_scope = none;
    page_quantifier = none;
  }

  abbrev id_decision : RuleDefinition → EvaluationContext → Bool → EvaluationDecision
  id_decision r context b =
      conclude r
        (record {
          group_index = 0;
          mode = all_of;
          result = some b;
          state = TraceEvaluationState.evaluated;
          conditions =
              condition_result 0 id_condition b (work_value pixiv_work_id context.candidate) [] none
              ∷ [];
        }
          ∷ [])
        b

  -- The rule that matches everything validates, if it has a name, and decides for every work by
  -- whether its Pixiv id is positive.
  pub match_all-evaluate :
      (id : ℕ) (name : String) (action default_action : RuleAction) (context : EvaluationContext)
      → is_blank name ≡ false
      → is_finite (of_unsigned 0) ≡ true
      → (validate (match_all id name action default_action) ≡ Validated.ok)
        × ((d : EvaluationDecision) × (evaluate (match_all id name action default_action) context
              ≡ ok d)
            × (d.action ≡ (
                if number_lt (of_unsigned 0) (of_i64 context.candidate.pixiv_work_id)
                then action
                else default_action)))
  unfolding match_all validate validate_groups validate_group validate_conditions validate_condition
      evaluate evaluate_value work_value value_matches_condition value_matches_options supports
      scope value_type
  match_all-evaluate id name action default_action context named finite = (
    rw (named, finite),
    elim (Bool-cases (number_lt (of_unsigned 0) (of_i64 context.candidate.pixiv_work_id))) [
      | inl positive ↦ (
        id_decision (match_all id name action default_action) context true,
        rw positive,
        rw positive,
      )
      | inr other ↦
          (id_decision (match_all id name action default_action) context false, rw other, rw other)
    ],
  )

  abbrev pub recent_days_rule :
      ℕ → String → RuleField → ℤ → RuleAction → RuleAction → RuleDefinition
  recent_days_rule id name field amount action default_action = record {
    schema_version = current_schema_version;
    id = id;
    name = name;
    enabled = true;
    group_mode = all_of;
    groups =
        record {
          mode = all_of;
          conditions =
              record {
                field = field;
                operator = recent_days;
                value = some (ConditionValue.duration_days amount);
                case_sensitive = none;
                tag_scope = none;
                page_quantifier = none;
              }
              ∷ [];
        }
        ∷ [];
    action = action;
    default_action = default_action;
  }

  date_field-validate :
      (id : ℕ) (name : String) (field : RuleField) (amount : ℤ) (action default_action : RuleAction)
      → value_type field ≡ FieldType.date
      → is_blank name ≡ false
      → is_positive amount ≡ true
      → validate (recent_days_rule id name field amount action default_action) ≡ Validated.ok
  unfolding validate validate_groups validate_group validate_conditions validate_condition
      value_matches_condition value_matches_options supports scope value_type
  date_field-validate id name published_at amount action default_action typed named positive =
      rw (named, positive)
  date_field-validate id name updated_at amount action default_action typed named positive =
      rw (named, positive)
  date_field-validate id name ranking_date amount action default_action typed named positive =
      rw (named, positive)
  date_field-validate id name _ amount action default_action typed named positive = cc

  -- A rule whose only condition asks for a date within the last so many days passes the validation
  -- for every positive number of days. If the moment that many days ago cannot be represented, its
  -- evaluation on a work that has the date panics.
  pub recent_days_rule_panics :
      (id : ℕ) (name : String) (field : RuleField) (amount : ℤ) (action default_action : RuleAction)
      (context : EvaluationContext) (left : Instant)
      → is_blank name ≡ false
      → is_positive amount ≡ true
      → work_value field context.candidate ≡ some (FieldValue.date left)
      → minus_days context.now amount ≡ none
      → (validate (recent_days_rule id name field amount action default_action) ≡ Validated.ok)
        × (evaluate (recent_days_rule id name field amount action default_action) context
            ≡ panicked)
  unfolding evaluate evaluate_value type_of
  recent_days_rule_panics id name field amount action default_action context left named positive
        dated overflow =
      (
        date_field-validate id name field amount action default_action
            (sym (work_value-typed field context.candidate dated).0) named positive,
        rw (dated, overflow),
      )
