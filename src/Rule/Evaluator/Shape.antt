-- ===== src/Rule/Evaluator/Shape.antt =====
-- Which groups and conditions a trace shows as evaluated.
use pixiv_archive.Prelude.{
  ℕ, zero, suc, ◌+◌, List, [], ◌∷◌, ◌≡◌, sym, ap, ◌∙◌, ◌↔◌, ◌⊎◌, inl, inr, Bool, true, false,
  Option, none, some, ok, get_elem?, >>=-eq-ok, Bool-cases, Option-cases, is_empty, ◌++◌, arith,
}
use mathlib.Core.Bool.{false≢true}
use native.Mathlib.Nat.{add-zero}
use pixiv_archive.Rule.Platform.{Platform}
use pixiv_archive.Rule.Operator.{GroupMode}
use pixiv_archive.Rule.Schema.{PageQuantifier, Condition, ConditionGroup}
use pixiv_archive.Rule.Candidate.{EvaluationContext, CandidatePage, work_value, page_value}
use pixiv_archive.Rule.Value.{FieldValue}
use pixiv_archive.Rule.ValueTest.{evaluate_value}
use pixiv_archive.Rule.Trace.{PageConditionTrace, ConditionTrace, GroupTrace}
use pixiv_archive.Rule.Compare.{Evaluated}
use pixiv_archive.Rule.Evaluator.{
  scan, decides, evaluate_group, evaluate_condition, stopped_condition, page_loop, require_metadata,
  decides_pages,
}
use pixiv_archive.Rule.Evaluator.Scan.{Round, scan-Round}

-- Some trace before that position has a result that decides the mode.
abbrev pub DecidedBefore : {T : Type 0} → GroupMode → (T → Option Bool) → ℕ → List T → Type 0
DecidedBefore mode result k [] = ⊥
DecidedBefore mode result zero (t ∷ ts) = ⊥
DecidedBefore mode result (suc k) (t ∷ ts) =
    ((b : Bool) × (result t ≡ some b) × (decides mode b ≡ true)) ⊎ DecidedBefore mode result k ts

module _ {X T : Type 0} (mode : GroupMode) (stopped : ℕ → X → T) (run : ℕ → X → Evaluated T)
    (result : T → Option Bool) (index : T → ℕ)
    (stopped_index : (i : ℕ) (x : X) → index (stopped i x) ≡ i)
    (stopped_result : (i : ℕ) (x : X) → result (stopped i x) ≡ none)
    (run_index : (i : ℕ) (x : X) (t : T) → run i x ≡ ok t → index t ≡ i) where
  halted_shape :
      (i : ℕ) (xs : List X) (k : ℕ) (s : List T × List Bool) (t : T)
      → scan mode stopped run result i true xs ≡ ok s
      → get_elem? s.0 k ≡ some t
      → (index t ≡ i + k) × (result t ≡ none)
  unfolding scan
  halted_shape i [] k s t h g = let none_left : s.0 ≡ [] = ground arith in cc (rw none_left at g)
  halted_shape i (x ∷ xs) k s t h g =
      let (rest, e, f) = >>=-eq-ok (scan mode stopped run result (suc i) true xs) _ h in
      let shown : s.0 ≡ stopped i x ∷ rest.0 = ground arith in
      at_index k rest.0 (rw shown at g) (λ j u. halted_shape (suc i) xs j rest u e)
    where
      at_index :
          (j : ℕ) (ts : List T)
          → get_elem? (stopped i x ∷ ts) j ≡ some t
          → ((j' : ℕ) (u : T)
              → get_elem? ts j' ≡ some u
              → (index u ≡ suc i + j') × (result u ≡ none))
          → (index t ≡ i + j) × (result t ≡ none)
      at_index zero ts g' ih =
          let same : stopped i x ≡ t = cc in
          (rw (← same, add-zero) (stopped_index i x), rw (← same) (stopped_result i x))
      at_index (suc j) ts g' ih = (omega (arith, ih j t g'), (ih j t g').1)

  -- At each position of the traces of a successful scan stands the trace of that item, and it has
  -- no result exactly if an earlier result has decided the mode.
  pub scan_shape :
      (i : ℕ) (xs : List X) (k : ℕ) (s : List T × List Bool) (t : T)
      → scan mode stopped run result i false xs ≡ ok s
      → get_elem? s.0 k ≡ some t
      → (index t ≡ i + k) × ((result t ≡ none) ↔ DecidedBefore mode result k s.0)
  unfolding scan
  scan_shape i [] k s t h g = let none_left : s.0 ≡ [] = ground arith in cc (rw none_left at g)
  scan_shape i (x ∷ xs) k s t h g =
      let r = scan-Round mode stopped run result i x xs s h in
      rw r.traces (at_index r k (rw r.traces at g) (λ j u. scan_shape (suc i) xs j r.rest u))
    where
      at_index :
          (r : Round mode stopped run result i x xs s) (j : ℕ)
          → get_elem? (r.trace ∷ r.rest.0) j ≡ some t
          → ((j' : ℕ) (u : T)
              → scan mode stopped run result (suc i) false xs ≡ ok r.rest
              → get_elem? r.rest.0 j' ≡ some u
              → (index u ≡ suc i + j')
                × ((result u ≡ none) ↔ DecidedBefore mode result j' r.rest.0))
          → (index t ≡ i + j)
            × ((result t ≡ none) ↔ DecidedBefore mode result j (r.trace ∷ r.rest.0))
      at_index r zero g' ih =
          let same : r.trace ≡ t = cc in
          (
            rw (← same, add-zero) (run_index i x r.trace r.ran),
            (λ e. cc (r.resulted), λ d. absurd d),
          )
      at_index r (suc j) g' ih = elim (Bool-cases (decides mode r.outcome)) [
        | inl decided ↦
            let halted = halted_shape (suc i) xs j r.rest t (rw decided at r.continued) g' in
            (omega (arith, halted.0), (λ e. inl (r.outcome, r.resulted, decided), λ d. halted.1))
        | inr go ↦
            let later = ih j t (rw go at r.continued) g' in
            (
              omega (arith, later.0),
              (
                λ e. inr (later.1.0 e),
                λ d. elim d [
                  | inl early ↦
                      let same : early.0 ≡ r.outcome = cc (early.1, r.resulted) in
                      absurd (false≢true (sym go ∙ ap (decides mode) (sym same) ∙ early.2))
                  | inr q ↦ later.1.1 q
                ],
              ),
            )
      ]

module _ ⦃P : Platform⦄ (context : EvaluationContext) where
  page_loop-index :
      (ci : ℕ) (c : Condition) (quantifier : PageQuantifier) (i : ℕ) (last : Option FieldValue)
      (traces : List PageConditionTrace) (saw : Bool) (pages : List CandidatePage)
      {t : ConditionTrace}
      → page_loop ci c quantifier context i last traces saw pages ≡ ok t
      → t.condition_index ≡ ci
  unfolding page_loop
  page_loop-index ci c quantifier i last traces saw [] h = ground arith
  page_loop-index ci c quantifier i last traces saw (page ∷ pages) {t} h =
      let (m, known, h') = >>=-eq-ok (require_metadata i page.metadata) _ h in
      let value : Option FieldValue = page_value c.field context.candidate m in
      let (b, tested, e) = >>=-eq-ok (evaluate_value c value context.now) _ h' in
      elim (Bool-cases (decides_pages quantifier b)) [
        | inl stop ↦ ground arith
        | inr go ↦
            page_loop-index ci c quantifier (suc i) value
              (traces ++ record { page_index = i; result = b; value = value } ∷ []) true pages
              (rw go at e)
      ]

  pub evaluate_condition-index :
      (ci : ℕ) (c : Condition) (t : ConditionTrace)
      → evaluate_condition context ci c ≡ ok t
      → t.condition_index ≡ ci
  unfolding evaluate_condition
  evaluate_condition-index ci c t h = elim (Option-cases c.page_quantifier) [
    | inl work ↦
        let (b, tested, e) =
          >>=-eq-ok (evaluate_value c (work_value c.field context.candidate) context.now) _
            (rw (work, evaluate_condition) at h) in
        ground arith
    | inr (quantifier, paged) ↦ elim (Bool-cases (is_empty context.candidate.pages)) [
      | inl empty ↦ let e = rw (paged, evaluate_condition, empty) at h in ground arith
      | inr full ↦
          page_loop-index ci c quantifier 0 none [] false context.candidate.pages
            (rw (paged, evaluate_condition, full) at h)
    ]
  ]

  pub evaluate_group-index :
      (i : ℕ) (g : ConditionGroup) (t : GroupTrace)
      → evaluate_group context i g ≡ ok t
      → t.group_index ≡ i
  unfolding evaluate_group
  evaluate_group-index i g t h =
      let (s, scanned, e) =
        >>=-eq-ok
          (scan g.mode stopped_condition (evaluate_condition context) (λ trace. trace.result) 0
            false g.conditions)
          _ h in
      ground arith
