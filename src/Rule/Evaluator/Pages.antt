-- ===== src/Rule/Evaluator/Pages.antt =====
-- What the loop over the pages of a work computes.
use mathlib.Core.Bool.{false≢true}
use pixiv_archive.Prelude.{
  ℕ, suc, List, [], ◌∷◌, ◌++◌, ◌≡◌, refl, ◌∙◌, ap, ◌≢◌, ◌↔◌, ◌⊎◌, inl, inr, Bool, true, false,
  Option, none, some, All, Any, ok, >>=-eq-ok, Bool-cases, List-cases, arith,
}
use pixiv_archive.Rule.Platform.{Platform}
use pixiv_archive.Rule.Value.{FieldValue}
use pixiv_archive.Rule.Schema.{PageQuantifier, any_page, all_pages, Condition}
use pixiv_archive.Rule.Candidate.{PageRuleMetadata, CandidatePage, EvaluationContext, page_value}
use pixiv_archive.Rule.Trace.{PageConditionTrace, ConditionTrace}
use pixiv_archive.Rule.Compare.{Evaluated}
use pixiv_archive.Rule.ValueTest.{evaluate_value}
use pixiv_archive.Rule.Semantics.{PageHolds, HoldsOn}
use pixiv_archive.Rule.Evaluator.{
  page_loop, require_metadata, decides_pages, evaluate_page_condition,
}

module _ ⦃P : Platform⦄ where
  require_metadata-eq-ok :
      (i : ℕ) (o : Option PageRuleMetadata) {m : PageRuleMetadata}
      → require_metadata i o ≡ ok m
      → o ≡ some m
  require_metadata-eq-ok i none h = cc
  require_metadata-eq-ok i (some x) h = cc

module _ ⦃P : Platform⦄ (ci : ℕ) (c : Condition) (quantifier : PageQuantifier)
    (context : EvaluationContext) where
  abbrev looped :
      ℕ
      → Option FieldValue
      → List PageConditionTrace
      → Bool
      → List CandidatePage
      → Evaluated ConditionTrace
  looped = page_loop ci c quantifier context

  -- What a successful round of the loop has done: the page holds or not, and the loop stops with
  -- that result or goes on.
  pub record PageRound (i : ℕ) (page : CandidatePage) (pages : List CandidatePage)
      (t : ConditionTrace) : Type 0 where
    pub outcome : Bool
    pub means : (outcome ≡ true) ↔ PageHolds context c page
    pub last : Option FieldValue
    pub traces : List PageConditionTrace
    pub continued :
        (decides_pages quantifier outcome ≡ true) × (t.result ≡ some outcome)
        ⊎ (decides_pages quantifier outcome ≡ false)
          × (looped (suc i) last traces true pages ≡ ok t)

  page_round :
      (i : ℕ) (last : Option FieldValue) (traces : List PageConditionTrace) (saw : Bool)
      (page : CandidatePage) (pages : List CandidatePage) (t : ConditionTrace)
      → looped i last traces saw (page ∷ pages) ≡ ok t
      → PageRound i page pages t
  unfolding page_loop
  page_round i last traces saw page pages t h =
      let (m, known, h') = >>=-eq-ok (require_metadata i page.metadata) _ h in
      let value : Option FieldValue = page_value c.field context.candidate m in
      let (b, tested, e) = >>=-eq-ok (evaluate_value c value context.now) _ h' in
      let found : page.metadata ≡ some m = require_metadata-eq-ok i page.metadata known in
      record {
        outcome = b;
        means = (
          λ p. (m, found, tested ∙ ap ok p),
          λ holds. let same : holds.0 ≡ m = cc (found, holds.1) in cc (tested, rw same at holds.2),
        );
        last = value;
        traces = traces ++ record { page_index = i; result = b; value = value } ∷ [];
        continued = elim (Bool-cases (decides_pages quantifier b)) [
          | inl stop ↦ inl (stop, ground arith)
          | inr go ↦ inr (go, ground arith)
        ];
      }

module _ ⦃P : Platform⦄ (ci : ℕ) (c : Condition) (context : EvaluationContext) where
  any_page_loop :
      (i : ℕ) (last : Option FieldValue) (traces : List PageConditionTrace) (saw : Bool)
      (pages : List CandidatePage) (t : ConditionTrace) (b : Bool)
      → page_loop ci c any_page context i last traces saw pages ≡ ok t
      → t.result ≡ some b
      → (b ≡ true) ↔ Any (PageHolds context c) pages
  unfolding page_loop
  any_page_loop i last traces saw [] t b h r = ground arith
  any_page_loop i last traces saw (page ∷ pages) t b h r =
      let round = page_round ci c any_page context i last traces saw page pages t h in
      elim round.continued [
        | inl (stop, same) ↦ (λ _. inl (round.means.0 stop), λ _. ground arith)
        | inr (go, more) ↦
            let ih = any_page_loop (suc i) round.last round.traces true pages t b more r in
            (λ e. inr (ih.0 e), λ d. elim d [ inl p ↦ cc (round.means.1 p) | inr q ↦ ih.1 q ])
      ]

  all_pages_loop :
      (i : ℕ) (last : Option FieldValue) (traces : List PageConditionTrace) (saw : Bool)
      (pages : List CandidatePage) (t : ConditionTrace) (b : Bool)
      → (saw ≡ true) ⊎ (pages ≢ [])
      → page_loop ci c all_pages context i last traces saw pages ≡ ok t
      → t.result ≡ some b
      → (b ≡ true) ↔ All (PageHolds context c) pages
  unfolding page_loop
  all_pages_loop i last traces saw [] t b (inl seen) h r = ground arith
  all_pages_loop i last traces saw [] t b (inr some_page) h r = absurd (some_page refl)
  all_pages_loop i last traces saw (page ∷ pages) t b _ h r =
      let round = page_round ci c all_pages context i last traces saw page pages t h in
      elim round.continued [
        | inl (stop, same) ↦
            let fails : round.outcome ≡ false = ground arith in
            (λ e. absurd (false≢true (ground arith)), λ a. cc (round.means.1 a.0))
        | inr (go, more) ↦
            let ih =
              all_pages_loop (suc i) round.last round.traces true pages t b (inl refl) more r in
            (λ e. (round.means.0 (ground arith), ih.0 e), λ a. ih.1 a.1)
      ]

  -- The result of a page-scoped condition says whether some page, or every page of at least one,
  -- passes the test.
  pub evaluate_page_condition_means :
      (quantifier : PageQuantifier) (t : ConditionTrace) (b : Bool)
      → evaluate_page_condition ci c quantifier context ≡ ok t
      → t.result ≡ some b
      → (b ≡ true) ↔ HoldsOn context (some quantifier) c
  unfolding evaluate_page_condition page_loop
  evaluate_page_condition_means any_page t b h r = elim (List-cases context.candidate.pages) [
    | inl empty ↦ rw empty (ground arith)
    | inr (page, rest, full) ↦
        any_page_loop 0 none [] false context.candidate.pages t b (ground arith) r
  ]
  evaluate_page_condition_means all_pages t b h r = elim (List-cases context.candidate.pages) [
    | inl empty ↦ (λ e. absurd (false≢true (ground arith)), λ q. absurd (q.0 empty))
    | inr (page, rest, full) ↦
        let some_page : context.candidate.pages ≢ [] = λ e. cc (e, full) in
        let every =
          all_pages_loop 0 none [] false context.candidate.pages t b (inr some_page) (ground arith)
            r in
        (λ e. (some_page, every.0 e), λ q. every.1 q.1)
  ]
