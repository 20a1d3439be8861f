-- ===== src/Rule/Semantics.antt =====
-- The meaning of a rule without evaluation order, short cuts or traces: when a condition, a group
-- and a rule hold of a work.
use pixiv_archive.Prelude.{List, [], ◌≡◌, ◌≢◌, true, Option, none, some, All, Any, ok}
use pixiv_archive.Rule.Platform.{Platform}
use pixiv_archive.Rule.Operator.{GroupMode, all_of, any_of}
use pixiv_archive.Rule.Schema.{
  PageQuantifier, any_page, all_pages, Condition, ConditionGroup, RuleDefinition,
}
use pixiv_archive.Rule.Candidate.{
  PageRuleMetadata, CandidatePage, EvaluationContext, work_value, page_value,
}
use pixiv_archive.Rule.ValueTest.{evaluate_value}

-- `all` of an empty list does not count as a match.
abbrev pub Quantified : {A : Type 0} → GroupMode → (A → Type 0) → List A → Type 0
Quantified all_of P xs = (xs ≢ []) × All P xs
Quantified any_of P xs = Any P xs

module _ ⦃P : Platform⦄ (context : EvaluationContext) where
  -- The page's metadata is known and the value that it gives passes the test.
  abbrev pub PageHolds : Condition → CandidatePage → Type 0
  PageHolds c page =
      (metadata : PageRuleMetadata) × (page.metadata ≡ some metadata)
      × (evaluate_value c (page_value c.field context.candidate metadata) context.now ≡ ok true)

  abbrev pub HoldsOn : Option PageQuantifier → Condition → Type 0
  HoldsOn none c = evaluate_value c (work_value c.field context.candidate) context.now ≡ ok true
  HoldsOn (some any_page) c = Any (PageHolds c) context.candidate.pages
  HoldsOn (some all_pages) c =
      (context.candidate.pages ≢ []) × All (PageHolds c) context.candidate.pages

  abbrev pub ConditionHolds : Condition → Type 0
  ConditionHolds c = HoldsOn c.page_quantifier c

  abbrev pub GroupHolds : ConditionGroup → Type 0
  GroupHolds g = Quantified g.mode ConditionHolds g.conditions

  abbrev pub RuleHolds : RuleDefinition → Type 0
  RuleHolds r = Quantified r.group_mode GroupHolds r.groups
