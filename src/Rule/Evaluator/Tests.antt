-- ===== src/Rule/Evaluator/Tests.antt =====
-- The evaluation of concrete rules.
use pixiv_archive.Prelude.{
  ℕ, [], ◌∷◌, ◌≡◌, refl, true, false, none, some, if◌then◌else◌, ltb, ok, panicked, All, is_blank,
  sort,
}
use pixiv_archive.Prelude.Int.{ℤ, pos}
use mathlib.Core.Path.{subst}
use pixiv_archive.Rule.Field.{RuleField, published_at, title}
use pixiv_archive.Rule.Operator.{download, ignore, all_of, any_of, contains_any_tag}
use pixiv_archive.Rule.Value.{FieldValue}
use pixiv_archive.Rule.Schema.{match_all}
use pixiv_archive.Rule.Validation.{validate, validate_condition, Validated}
use pixiv_archive.Rule.Trace.{
  ConditionTrace, PageConditionTrace, GroupTrace, RuleTrace, TraceEvaluationState, skipped, matched,
  condition_result, condition_stopped,
}
use pixiv_archive.Rule.Compare.{Evaluated}
use pixiv_archive.Rule.Candidate.{work_value, page_value}
use pixiv_archive.Rule.ValueTest.{evaluate_value}
use pixiv_archive.Rule.Catalog.{field_catalog}
use pixiv_archive.Rule.Catalog.Laws.{started, field_catalog-validate}
use pixiv_archive.Rule.Evaluator.{EvaluationDecision, evaluate, decision, rule_trace}
use pixiv_archive.Rule.Evaluator.Decision.{IsDecided, evaluate-IsDecided}
use pixiv_archive.Rule.Evaluator.Total.{Yields, IsMissing, evaluate-Yields, evaluate_total}
use pixiv_archive.Rule.Evaluator.Samples.{
  match_all-evaluate, recent_days_rule, recent_days_rule_panics,
}
use pixiv_archive.Rule.Tests.{
  hours_platform, at_100, cat_rule, tagged_cat, wide_pages, recent_publication, cat_tags, page,
}

abbrev ok_or : {A : Type 0} → A → Evaluated A → A
ok_or a (ok b) = b
ok_or a _ = a

skipped_decision : EvaluationDecision
skipped_decision = decision ignore none (rule_trace cat_rule skipped [])

cat_decision : EvaluationDecision
unfolding evaluate
cat_decision = ok_or skipped_decision (evaluate cat_rule at_100)

cat_decision-evaluate : evaluate cat_rule at_100 ≡ ok cat_decision
unfolding cat_decision evaluate evaluate_value work_value page_value sort
cat_decision-evaluate = refl

evaluate-IsDecided_example : IsDecided at_100 cat_rule cat_decision
evaluate-IsDecided_example = evaluate-IsDecided at_100 cat_rule cat_decision cat_decision-evaluate

hour_76 :
    (amount : ℤ)
    → some (pos 24) ≡ some amount
    → (s : ℕ) × (hours_platform.minus_hours 100 amount ≡ some s)
hour_76 amount given =
    let same : pos 24 ≡ amount = cc in
    subst (λ a. (s : ℕ) × (hours_platform.minus_hours 100 a ≡ some s)) same (76, refl)

evaluate-Yields_example : Yields (λ d. Unit {0}) (IsMissing at_100) (evaluate cat_rule at_100)
evaluate-Yields_example =
    evaluate-Yields at_100 cat_rule ((tt, (tt, tt)), ((hour_76, (tt, tt)), tt))

evaluate_total_example : (d : EvaluationDecision) × (evaluate cat_rule at_100 ≡ ok d)
evaluate_total_example =
    evaluate_total at_100 cat_rule ((tt, (tt, tt)), ((hour_76, (tt, tt)), tt))
      ((page 1000, refl), ((page 1200, refl), tt))

all_named : is_blank "all" ≡ false
unfolding is_blank
all_named = refl

published_at_90 : work_value published_at at_100.candidate ≡ some (FieldValue.date 90)
unfolding work_value
published_at_90 = refl

abbrev stopped_cat : ConditionTrace
stopped_cat = condition_stopped 1 RuleField.tags contains_any_tag none

-- The publication is recent, so that the tags are not looked at.
abbrev recent_trace : GroupTrace
recent_trace = record {
  group_index = 1;
  mode = any_of;
  result = some true;
  state = TraceEvaluationState.evaluated;
  conditions =
      condition_result 0 recent_publication true (some (FieldValue.date 90)) [] none
      ∷ stopped_cat
      ∷ [];
}

abbrev page_trace : ℕ → ℕ → PageConditionTrace
page_trace page_index width = record {
  page_index = page_index;
  result = true;
  value = some (FieldValue.number width);
}

abbrev all_trace : GroupTrace
all_trace = record {
  group_index = 0;
  mode = all_of;
  result = some true;
  state = TraceEvaluationState.evaluated;
  conditions =
      condition_result 0 tagged_cat true (some cat_tags) [] none
      ∷ condition_result 1 wide_pages true (some (FieldValue.number 1200))
          (page_trace 0 1000 ∷ page_trace 1 1200 ∷ []) none
      ∷ [];
}

abbrev cat_trace : RuleTrace
cat_trace = rule_trace cat_rule matched (all_trace ∷ recent_trace ∷ [])

match_all-evaluate_example :
    (validate (match_all 1 "all" download ignore) ≡ Validated.ok)
    × ((d : EvaluationDecision) × (evaluate (match_all 1 "all" download ignore) at_100 ≡ ok d)
        × (d.action ≡ (if ltb 0 77 then download else ignore)))
match_all-evaluate_example = match_all-evaluate 1 "all" download ignore at_100 all_named refl

recent_days_rule_panics_example :
    (validate (recent_days_rule 1 "all" published_at (pos 5) download ignore) ≡ Validated.ok)
    × (evaluate (recent_days_rule 1 "all" published_at (pos 5) download ignore) at_100 ≡ panicked)
recent_days_rule_panics_example =
    recent_days_rule_panics 1 "all" published_at (pos 5) download ignore at_100 90 all_named refl
      published_at_90 refl

field_catalog-validate_example :
    All
      (λ operator.
        validate_condition 0 0 (started 100 (field_catalog title) operator) ≡ Validated.ok)
      (field_catalog title).operators
field_catalog-validate_example = field_catalog-validate 100 0 0 title refl refl refl
