-- ===== src/Rule/Evaluator/Total.antt =====
-- When an evaluation succeeds, and which error it returns otherwise.
use pixiv_archive.Prelude.{
  ℕ, zero, suc, ◌+◌, List, [], ◌∷◌, ◌++◌, ◌≡◌, refl, ap, ◌∙◌, inl, inr, Bool, true, false, Option,
  none, some, ok, err, Outcome, get_elem?, ◌>>=◌, Bool-cases, Option-cases, All, arith, is_empty,
}
use native.Mathlib.Nat.{add-zero}
use pixiv_archive.Rule.Platform.{Platform}
use pixiv_archive.Rule.Operator.{GroupMode}
use pixiv_archive.Rule.Value.{FieldValue}
use pixiv_archive.Rule.Schema.{PageQuantifier, Condition, ConditionGroup, RuleDefinition}
use pixiv_archive.Rule.Candidate.{
  CandidatePage, PageRuleMetadata, EvaluationContext, work_value, page_value,
}
use pixiv_archive.Rule.Trace.{ConditionTrace, GroupTrace, PageConditionTrace}
use pixiv_archive.Rule.Compare.{Evaluated, page_metadata_required}
use pixiv_archive.Rule.ValueTest.Total.{Representable, evaluate_value_total}
use pixiv_archive.Rule.Evaluator.{
  scan, combine, decides, decides_pages, page_loop, evaluate_page_condition, evaluate_condition,
  evaluate_group, evaluate, stopped_condition, stopped_group, EvaluationDecision,
}

-- A result that satisfies `G` if it is a success, and `Bad` if it is an error; never a panic.
abbrev pub Yields : {A : Type 0} → (A → Type 0) → (ℕ → Type 0) → Evaluated A → Type 0
Yields G Bad (ok a) = G a
Yields G Bad (err (page_metadata_required i)) = Bad i
Yields G Bad Outcome.panicked = ⊥

Yields-bind :
    {A B : Type 0} (G : A → Type 0) (G' : B → Type 0) (Bad : ℕ → Type 0) (m : Evaluated A)
    (f : A → Evaluated B)
    → Yields G Bad m
    → ((a : A) → G a → Yields G' Bad (f a))
    → Yields G' Bad (m >>= f)
Yields-bind G G' Bad (ok a) f h k = k a h
Yields-bind G G' Bad (err (page_metadata_required i)) f h k = h
Yields-bind G G' Bad Outcome.panicked f h k = elim h [ ]

-- The loop yields what its rounds yield.
module _ {X T : Type 0} (mode : GroupMode) (stopped : ℕ → X → T) (run : ℕ → X → Evaluated T)
    (result : T → Option Bool) (Q : X → Type 0) (Bad : ℕ → Type 0) where
  abbrev HasResult : T → Type 0
  HasResult t = (b : Bool) × (result t ≡ some b)

  abbrev Anything : List T × List Bool → Type 0
  Anything s = Unit {0}

  module _ (rounds : (i : ℕ) (x : X) → Q x → Yields HasResult Bad (run i x)) where
    scan-Yields :
        (i : ℕ) (halted : Bool) (xs : List X)
        → All Q xs
        → Yields Anything Bad (scan mode stopped run result i halted xs)
    unfolding scan
    scan-Yields i halted [] q = tt
    scan-Yields i true (x ∷ xs) q =
        Yields-bind Anything Anything Bad (scan mode stopped run result (suc i) true xs) _
          (scan-Yields (suc i) true xs q.1) (λ s _. tt)
    scan-Yields i false (x ∷ xs) q =
        Yields-bind HasResult Anything Bad (run i x) _ (rounds i x q.0) λ t r. rw r.1 (
          Yields-bind Anything Anything Bad
            (scan mode stopped run result (suc i) (decides mode r.0) xs) _
            (scan-Yields (suc i) (decides mode r.0) xs q.1) (λ s _. tt))

module _ ⦃P : Platform⦄ (context : EvaluationContext) where
  -- The page at that index of the work has no metadata.
  abbrev pub IsMissing : ℕ → Type 0
  IsMissing i =
      (page : CandidatePage) × (get_elem? context.candidate.pages i ≡ some page)
      × (page.metadata ≡ none)

  abbrev pub IsRepresentable : Condition → Type 0
  IsRepresentable c = Representable c.operator c.value context.now

  abbrev HasOutcome : ConditionTrace → Type 0
  HasOutcome t = (b : Bool) × (t.result ≡ some b)

  module _ (ci : ℕ) (c : Condition) (quantifier : PageQuantifier) (fits : IsRepresentable c) where
    page_loop-Yields :
        (i : ℕ) (last : Option FieldValue) (traces : List PageConditionTrace) (saw : Bool)
        (pages : List CandidatePage)
        → ((k : ℕ) → get_elem? context.candidate.pages (i + k) ≡ get_elem? pages k)
        → Yields HasOutcome IsMissing (page_loop ci c quantifier context i last traces saw pages)
    unfolding page_loop
    page_loop-Yields i last traces saw [] suffix = (_, refl)
    page_loop-Yields i last traces saw (page ∷ pages) suffix = elim (Option-cases page.metadata) [
      | inl missing ↦ rw missing (page, rw add-zero at (suffix 0), missing)
      | inr (m, known) ↦
          let value : Option FieldValue = page_value c.field context.candidate m in
          let (b, tested) = evaluate_value_total c value context.now fits in
          let value_traces : List PageConditionTrace =
            traces ++ record { page_index = i; result = b; value = value } ∷ [] in
          let shifted : (k : ℕ)
              → get_elem? context.candidate.pages (suc i + k) ≡ get_elem? pages k =
            λ k. ap (get_elem? context.candidate.pages) (omega arith) ∙ suffix (suc k) in
          elim (Bool-cases (decides_pages quantifier b)) [
            | inl stop ↦ rw (known, tested, stop) (b, refl)
            | inr go ↦
                rw (known, tested, go)
                  (page_loop-Yields (suc i) value value_traces true pages shifted)
          ]
    ]

    evaluate_page_condition-Yields :
        Yields HasOutcome IsMissing (evaluate_page_condition ci c quantifier context)
    unfolding evaluate_page_condition
    evaluate_page_condition-Yields = elim (Bool-cases (is_empty context.candidate.pages)) [
      | inl empty ↦ rw empty (false, refl)
      | inr full ↦ rw full (
          page_loop-Yields 0 none [] false context.candidate.pages
            (λ k. ap (get_elem? context.candidate.pages) (omega arith)))
    ]

  evaluate_condition-Yields :
      (i : ℕ) (c : Condition)
      → IsRepresentable c
      → Yields HasOutcome IsMissing (evaluate_condition context i c)
  unfolding evaluate_condition
  evaluate_condition-Yields i c fits = elim (Option-cases c.page_quantifier) [
    | inl work ↦
        let (b, tested) =
          evaluate_value_total c (work_value c.field context.candidate) context.now fits in
        rw (work, evaluate_condition) (rw tested (b, refl))
    | inr (quantifier, paged) ↦
        rw (paged, evaluate_condition) (evaluate_page_condition-Yields i c quantifier fits)
  ]

  abbrev pub IsRepresentableGroup : ConditionGroup → Type 0
  IsRepresentableGroup g = All IsRepresentable g.conditions

  abbrev HasGroupResult : GroupTrace → Type 0
  HasGroupResult t = (b : Bool) × (t.result ≡ some b)

  evaluate_group-Yields :
      (i : ℕ) (g : ConditionGroup)
      → IsRepresentableGroup g
      → Yields HasGroupResult IsMissing (evaluate_group context i g)
  unfolding evaluate_group
  evaluate_group-Yields i g fits =
      Yields-bind (λ s. Unit {0}) HasGroupResult IsMissing
        (scan g.mode stopped_condition (evaluate_condition context) (λ trace. trace.result) 0 false
          g.conditions)
        _
        (scan-Yields g.mode stopped_condition (evaluate_condition context) (λ trace. trace.result)
          IsRepresentable IsMissing evaluate_condition-Yields 0 false g.conditions fits)
        (λ s _. (combine g.mode s.1, refl))

  -- If the moments that the recent-hours and recent-days conditions compute can be represented, an
  -- evaluation does not panic: it succeeds, or it names a page of the work without metadata.
  pub evaluate-Yields :
      (r : RuleDefinition)
      → All IsRepresentableGroup r.groups
      → Yields (λ d. Unit {0}) IsMissing (evaluate r context)
  unfolding evaluate
  evaluate-Yields r fits = elim (Bool-cases r.enabled) [
    | inl on ↦
        rw (on, evaluate)
          (Yields-bind (λ s. Unit {0}) (λ d. Unit {0}) IsMissing
            (scan r.group_mode stopped_group (evaluate_group context) (λ trace. trace.result) 0
              false r.groups)
            _
            (scan-Yields r.group_mode stopped_group (evaluate_group context) (λ trace. trace.result)
              IsRepresentableGroup IsMissing evaluate_group-Yields 0 false r.groups fits)
            (λ s _. tt))
    | inr off ↦ rw (off, evaluate) tt
  ]

  All-known :
      (pages : List CandidatePage) (i : ℕ)
      → All (λ page. (m : PageRuleMetadata) × (page.metadata ≡ some m)) pages
      → ¬ ((page : CandidatePage) × (get_elem? pages i ≡ some page) × (page.metadata ≡ none))
  All-known [] i known h = cc (h.1)
  All-known (p ∷ pages) zero known h = cc (h.1, h.2, known.0.1)
  All-known (p ∷ pages) (suc i) known h = All-known pages i known.1 h

  of_Yields :
      {A : Type 0} (m : Evaluated A)
      → ((i : ℕ) → ¬ IsMissing i)
      → Yields (λ a. Unit {0}) IsMissing m
      → (a : A) × (m ≡ ok a)
  of_Yields (ok a) known h = (a, refl)
  of_Yields (err (page_metadata_required i)) known h = absurd (known i h)
  of_Yields Outcome.panicked known h = elim h [ ]

  -- If the moments that the recent-hours and recent-days conditions compute can be represented, and
  -- every page has its metadata, the evaluation succeeds.
  pub evaluate_total :
      (r : RuleDefinition)
      → All IsRepresentableGroup r.groups
      → All (λ page. (m : PageRuleMetadata) × (page.metadata ≡ some m)) context.candidate.pages
      → (d : EvaluationDecision) × (evaluate r context ≡ ok d)
  evaluate_total r fits known =
      of_Yields (evaluate r context) (λ i. All-known context.candidate.pages i known)
        (evaluate-Yields r fits)
