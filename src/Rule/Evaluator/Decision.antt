-- ===== src/Rule/Evaluator/Decision.antt =====
-- The decision of a rule and its meaning (`evaluate` of rule/evaluator.rs).
use pixiv_archive.Prelude.{
  ℕ, List, ◌≡◌, refl, sym, ap, ◌∙◌, ◌↔◌, ◌⊎◌, inl, inr, Bool, true, false, Option, none, some, ok,
  >>=-eq-ok, ok-injective, Bool-cases, Option-cases, arith,
}
use mathlib.Core.Path.{subst}
use pixiv_archive.Rule.Value.{FieldValue}
use pixiv_archive.Rule.Platform.{Platform}
use pixiv_archive.Rule.Schema.{Condition, ConditionGroup, RuleDefinition}
use pixiv_archive.Rule.Candidate.{EvaluationContext, work_value}
use pixiv_archive.Rule.Trace.{ConditionTrace, GroupTrace}
use pixiv_archive.Rule.ValueTest.{evaluate_value}
use pixiv_archive.Rule.Semantics.{ConditionHolds, GroupHolds, RuleHolds, HoldsOn}
use pixiv_archive.Rule.Evaluator.{
  scan, combine, evaluate_condition, evaluate_group, evaluate, stopped_condition, stopped_group,
  EvaluationDecision, conclude,
}
use pixiv_archive.Rule.Evaluator.Scan.{scan-Quantified}
use pixiv_archive.Rule.Evaluator.Pages.{evaluate_page_condition_means}

module _ ⦃P : Platform⦄ (context : EvaluationContext) where
  evaluate_condition_means :
      (i : ℕ) (c : Condition) (t : ConditionTrace) (b : Bool)
      → evaluate_condition context i c ≡ ok t
      → t.result ≡ some b
      → (b ≡ true) ↔ ConditionHolds context c
  unfolding evaluate_condition
  evaluate_condition_means i c t b h r = elim (Option-cases c.page_quantifier) [
    | inl work ↦
        let value : Option FieldValue = work_value c.field context.candidate in
        let (v, tested, e) =
          >>=-eq-ok (evaluate_value c value context.now) _ (rw (work, evaluate_condition) at h) in
        let same : v ≡ b = ground arith in
        subst (λ q. (b ≡ true) ↔ HoldsOn context q c) (sym work)
          (λ p. tested ∙ ap ok (same ∙ p), λ holds. cc (tested, holds, same))
    | inr (quantifier, paged) ↦
        subst (λ q. (b ≡ true) ↔ HoldsOn context q c) (sym paged)
          (evaluate_page_condition_means i c context quantifier t b
            (rw (paged, evaluate_condition) at h) r)
  ]

  evaluate_group_means :
      (i : ℕ) (g : ConditionGroup) (t : GroupTrace) (b : Bool)
      → evaluate_group context i g ≡ ok t
      → t.result ≡ some b
      → (b ≡ true) ↔ GroupHolds context g
  unfolding evaluate_group
  evaluate_group_means i g t b h r =
      let (s, scanned, e) =
        >>=-eq-ok
          (scan g.mode stopped_condition (evaluate_condition context) (λ trace. trace.result) 0
            false g.conditions)
          _ h in
      let means =
        scan-Quantified stopped_condition (evaluate_condition context) (λ trace. trace.result)
          (ConditionHolds context) evaluate_condition_means g.mode g.conditions s scanned in
      let same : b ≡ combine g.mode s.1 = ground arith in
      (λ p. means.0 (sym same ∙ p), λ holds. same ∙ means.1 holds)

  -- One of the two ways in which a rule can decide.
  abbrev pub IsDecided : RuleDefinition → EvaluationDecision → Type 0
  IsDecided r d =
      (r.enabled ≡ true)
        × RuleHolds context r
        × (d.matched_rule_id ≡ some r.id)
        × (d.action ≡ r.action)
      ⊎ ¬ ((r.enabled ≡ true) × RuleHolds context r)
        × (d.matched_rule_id ≡ none)
        × (d.action ≡ r.default_action)

  conclude-IsDecided :
      (r : RuleDefinition) (groups : List GroupTrace) (b : Bool)
      → r.enabled ≡ true
      → (b ≡ true) ↔ RuleHolds context r
      → IsDecided r (conclude r groups b)
  conclude-IsDecided r groups true on means = inl (on, means.0 refl, refl, refl)
  conclude-IsDecided r groups false on means = inr (λ h. cc (means.1 h.1), refl, refl)

  -- Whenever an evaluation succeeds, the rule matches, with its own action and its id, exactly if
  -- it is enabled and holds of the work; otherwise the default action is taken and no id is named.
  pub evaluate-IsDecided :
      (r : RuleDefinition) (d : EvaluationDecision) → evaluate r context ≡ ok d → IsDecided r d
  unfolding evaluate
  evaluate-IsDecided r d h = elim (Bool-cases r.enabled) [
    | inl on ↦
        let (s, scanned, e) =
          >>=-eq-ok
            (scan r.group_mode stopped_group (evaluate_group context) (λ trace. trace.result) 0
              false r.groups)
            _ (rw (on, evaluate) at h) in
        let means =
          scan-Quantified stopped_group (evaluate_group context) (λ trace. trace.result)
            (GroupHolds context) evaluate_group_means r.group_mode r.groups s scanned in
        let same : conclude r s.0 (combine r.group_mode s.1) ≡ d = ok-injective e in
        subst (λ x. IsDecided r x) same
          (conclude-IsDecided r s.0 (combine r.group_mode s.1) on means)
    | inr off ↦ inr (λ h. cc (off, h.0), ground arith, ground arith)
  ]
