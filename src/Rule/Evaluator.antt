-- ===== src/Rule/Evaluator.antt =====
-- The evaluation of a rule on a work (rule/evaluator.rs): groups of conditions, each stopped as
-- soon as its mode is decided, with the trace of what was and was not evaluated.
mod Scan
mod Pages
pub mod Decision
mod Shape
pub mod Samples
pub mod Traces
pub mod Total
mod Tests
use pixiv_archive.Prelude.{
  ℕ, suc, List, [], ◌∷◌, ◌++◌, Bool, true, false, not, ◌&&◌, Option, none, some, if◌then◌else◌,
  is_empty, all, any, ok, err, expect, ◌>>=◌,
}
use pixiv_archive.Rule.Platform.{Platform}
use pixiv_archive.Rule.Operator.{RuleAction, GroupMode, all_of, any_of}
use pixiv_archive.Rule.Value.{FieldValue}
use pixiv_archive.Rule.Schema.{
  PageQuantifier, any_page, all_pages, Condition, ConditionGroup, RuleDefinition,
}
use pixiv_archive.Rule.Candidate.{
  PageRuleMetadata, CandidatePage, EvaluationContext, work_value, page_value,
}
use pixiv_archive.Rule.Trace.{
  RuleTraceState, TraceEvaluationState, PageConditionTrace, ConditionTrace, GroupTrace, RuleTrace,
  EvaluationTrace, condition_result, condition_stopped, skipped, matched, not_matched,
}
use pixiv_archive.Rule.Compare.{page_metadata_required, Evaluated}
use pixiv_archive.Rule.ValueTest.{evaluate_value}

unfoldable pub combine : GroupMode → List Bool → Bool
combine all_of results = not (is_empty results) && all (λ value. value) results
combine any_of results = any (λ value. value) results

-- Whether a result decides its group, so that the rest is not evaluated.
abbrev pub decides : GroupMode → Bool → Bool
decides any_of result = result
decides all_of result = not result

abbrev pub decides_pages : PageQuantifier → Bool → Bool
decides_pages any_page result = result
decides_pages all_pages result = not result

-- The result when the pages have run out.
abbrev pub pages_result : PageQuantifier → Bool → Bool
pages_result any_page saw_result = false
pages_result all_pages saw_result = saw_result

-- The loop that `evaluate` makes over groups and `evaluate_group` over conditions: it returns the
-- traces of all items and the results of those that were evaluated.
module _ {X T : Type 0} (mode : GroupMode) (stopped : ℕ → X → T) (run : ℕ → X → Evaluated T)
    (result : T → Option Bool) where
  unfoldable pub scan : ℕ → Bool → List X → Evaluated (List T × List Bool)
  scan i halted [] = ok ([], [])
  scan i true (x ∷ xs) = do rest ← scan (suc i) true xs; ok (stopped i x ∷ rest.0, rest.1)
  scan i false (x ∷ xs) = do
    trace ← run i x
    r ← expect (result trace)
    rest ← scan (suc i) (decides mode r) xs
    ok (trace ∷ rest.0, r ∷ rest.1)

abbrev pub enumerate_from {ℓ κ} : {A : Type ℓ} {B : Type κ} → (ℕ → A → B) → ℕ → List A → List B
enumerate_from f i [] = []
enumerate_from f i (x ∷ xs) = f i x ∷ enumerate_from f (suc i) xs

module _ ⦃P : Platform⦄ where
  unfoldable pub stopped_condition : ℕ → Condition → ConditionTrace
  stopped_condition condition_index c =
      condition_stopped condition_index c.field c.operator c.page_quantifier

  unfoldable pub stopped_group : ℕ → ConditionGroup → GroupTrace
  unfolding stopped_condition
  stopped_group group_index group = record {
    group_index = group_index;
    mode = group.mode;
    result = none;
    state = TraceEvaluationState.stopped_before_evaluation;
    conditions = enumerate_from stopped_condition 0 group.conditions;
  }

  abbrev require_metadata : ℕ → Option PageRuleMetadata → Evaluated PageRuleMetadata
  require_metadata page_index none = err (page_metadata_required page_index)
  require_metadata page_index (some metadata) = ok metadata

  module _ (condition_index : ℕ) (c : Condition) (quantifier : PageQuantifier)
      (context : EvaluationContext) where
    -- The loop over the pages, from a page index, with the last value, the page traces and
    -- `saw_result` so far.
    unfoldable pub page_loop :
        ℕ
        → Option FieldValue
        → List PageConditionTrace
        → Bool
        → List CandidatePage
        → Evaluated ConditionTrace
    page_loop page_index last_value page_traces saw_result [] = ok (
        condition_result condition_index c (pages_result quantifier saw_result) last_value
          page_traces none)
    page_loop page_index last_value page_traces saw_result (page ∷ pages) = do
      metadata ← require_metadata page_index page.metadata
      let value = page_value c.field context.candidate metadata
      result ← evaluate_value c value context.now
      let traces =
          page_traces ++ record { page_index = page_index; result = result; value = value } ∷ []
      let rest = page_loop (suc page_index) value traces true pages
      let stopped = condition_result condition_index c result value traces (some page_index)
      (if decides_pages quantifier result then ok stopped else rest)

    unfoldable pub evaluate_page_condition : Evaluated ConditionTrace
    unfolding page_loop
    evaluate_page_condition =
        if is_empty context.candidate.pages
        then ok (condition_result condition_index c false none [] none)
        else page_loop 0 none [] false context.candidate.pages

  unfoldable pub evaluate_condition : EvaluationContext → ℕ → Condition → Evaluated ConditionTrace
  unfolding evaluate_page_condition
  evaluate_condition context condition_index c = elim c.page_quantifier [
    | some quantifier ↦ evaluate_page_condition condition_index c quantifier context
    | none ↦ do
      let value = work_value c.field context.candidate
      result ← evaluate_value c value context.now
      ok (condition_result condition_index c result value [] none)
  ]

  unfoldable pub evaluate_group : EvaluationContext → ℕ → ConditionGroup → Evaluated GroupTrace
  unfolding scan combine stopped_condition evaluate_condition
  evaluate_group context group_index group = do
    scanned ←
        scan group.mode stopped_condition (evaluate_condition context) (λ trace. trace.result) 0
          false group.conditions
    ok (record {
      group_index = group_index;
      mode = group.mode;
      result = some (combine group.mode scanned.1);
      state = TraceEvaluationState.evaluated;
      conditions = scanned.0;
    })

  pub record EvaluationDecision : Type 0 where
    pub action : RuleAction
    pub matched_rule_id : Option ℕ
    pub trace : EvaluationTrace

  abbrev rule_trace : RuleDefinition → RuleTraceState → List GroupTrace → RuleTrace
  rule_trace r state groups = record {
    rule_index = 0;
    rule_id = r.id;
    rule_name = r.name;
    action = r.action;
    group_mode = r.group_mode;
    state = state;
    groups = groups;
  }

  abbrev decision : RuleAction → Option ℕ → RuleTrace → EvaluationDecision
  decision action matched_rule_id trace = record {
    action = action;
    matched_rule_id = matched_rule_id;
    trace = record { decision = action; matched_rule_id = matched_rule_id; rules = trace ∷ [] };
  }

  -- The decision once the groups have been scanned.
  abbrev conclude : RuleDefinition → List GroupTrace → Bool → EvaluationDecision
  conclude r groups is_match =
      decision (if is_match then r.action else r.default_action)
        (if is_match then some r.id else none)
        (rule_trace r (if is_match then matched else not_matched) groups)

  unfoldable pub evaluate : RuleDefinition → EvaluationContext → Evaluated EvaluationDecision
  unfolding scan combine stopped_group evaluate_group
  evaluate r context =
      if not r.enabled
      then ok (
          decision r.default_action none
            (rule_trace r skipped (enumerate_from stopped_group 0 r.groups)))
      else do
        scanned ←
            scan r.group_mode stopped_group (evaluate_group context) (λ trace. trace.result) 0 false
              r.groups
        ok (conclude r scanned.0 (combine r.group_mode scanned.1))
