-- ===== src/Rule/Evaluator/Scan.antt =====
-- What the short-circuit loop computes, whatever it runs over.
use pixiv_archive.Prelude.{
  ℕ, suc, List, [], ◌∷◌, ◌≡◌, refl, ◌↔◌, inl, inr, Bool, true, false, Option, some, All, Any, all,
  ok, expect, >>=-eq-ok, length, ap, expect-eq-ok, Bool-cases, arith,
}
use mathlib.Core.Bool.{false≢true}
use pixiv_archive.Rule.Operator.{GroupMode, all_of, any_of}
use pixiv_archive.Rule.Compare.{Evaluated}
use pixiv_archive.Rule.Semantics.{Quantified}
use pixiv_archive.Rule.Evaluator.{scan, combine, decides}

module _ {X T : Type 0} (mode : GroupMode) (stopped : ℕ → X → T) (run : ℕ → X → Evaluated T)
    (result : T → Option Bool) where
  abbrev pub scanned : ℕ → Bool → List X → Evaluated (List T × List Bool)
  scanned = scan mode stopped run result

  -- A scan that has stopped evaluates nothing.
  scan_halted : (i : ℕ) (xs : List X) {s : List T × List Bool} → scanned i true xs ≡ ok s → s.1 ≡ []
  unfolding scan
  scan_halted i [] h = ground arith
  scan_halted i (x ∷ xs) {s} h =
      let (rest, e, f) = >>=-eq-ok (scanned (suc i) true xs) _ h in
      let none_more : rest.1 ≡ [] = scan_halted (suc i) xs e in ground arith

  -- What a successful round of the loop has done.
  pub record Round (i : ℕ) (x : X) (xs : List X) (s : List T × List Bool) : Type 0 where
    pub trace : T
    pub outcome : Bool
    pub rest : List T × List Bool
    pub ran : run i x ≡ ok trace
    pub resulted : result trace ≡ some outcome
    pub continued : scanned (suc i) (decides mode outcome) xs ≡ ok rest
    pub traces : s.0 ≡ trace ∷ rest.0
    pub results : s.1 ≡ outcome ∷ rest.1

  pub scan-Round :
      (i : ℕ) (x : X) (xs : List X) (s : List T × List Bool)
      → scanned i false (x ∷ xs) ≡ ok s
      → Round i x xs s
  unfolding scan
  scan-Round i x xs s h =
      let (t, ran, h') = >>=-eq-ok (run i x) _ h in
      let (r, resulted, h'') = >>=-eq-ok (expect (result t)) _ h' in
      let (rest, continued, e) = >>=-eq-ok (scanned (suc i) (decides mode r) xs) _ h'' in
      record {
        trace = t;
        outcome = r;
        rest = rest;
        ran = ran;
        resulted = expect-eq-ok (result t) resulted;
        continued = continued;
        traces = ground arith;
        results = ground arith;
      }

module _ {X T : Type 0} (mode : GroupMode) (stopped : ℕ → X → T) (run : ℕ → X → Evaluated T)
    (result : T → Option Bool) where
  -- A scan leaves one trace for each item, evaluated or not.
  pub length-scan :
      (halted : Bool) (i : ℕ) (xs : List X) (s : List T × List Bool)
      → scan mode stopped run result i halted xs ≡ ok s
      → length s.0 ≡ length xs
  unfolding scan
  length-scan halted i [] s h = let none_left : s.0 ≡ [] = ground arith in rw none_left refl
  length-scan true i (x ∷ xs) s h =
      let (rest, e, f) = >>=-eq-ok (scan mode stopped run result (suc i) true xs) _ h in
      let shown : s.0 ≡ stopped i x ∷ rest.0 = ground arith in
      rw shown (ap suc (length-scan true (suc i) xs rest e))
  length-scan false i (x ∷ xs) s h =
      let r = scan-Round mode stopped run result i x xs s h in
      rw r.traces (ap suc (length-scan (decides mode r.outcome) (suc i) xs r.rest r.continued))

-- The loop decides as if nothing were cut short: `H` is what the result of one item stands for.
module _ {X T : Type 0} (stopped : ℕ → X → T) (run : ℕ → X → Evaluated T) (result : T → Option Bool)
    (H : X → Type 0)
    (means : (i : ℕ) (x : X) (t : T) (b : Bool)
      → run i x ≡ ok t
      → result t ≡ some b
      → (b ≡ true) ↔ H x) where
  scan-any_of :
      (i : ℕ) (xs : List X) (s : List T × List Bool)
      → scan any_of stopped run result i false xs ≡ ok s
      → (combine any_of s.1 ≡ true) ↔ Any H xs
  unfolding scan combine
  scan-any_of i [] s h = ground arith
  scan-any_of i (x ∷ xs) s h =
      let r = scan-Round any_of stopped run result i x xs s h in
      let m = means i x r.trace r.outcome r.ran r.resulted in
      elim (Bool-cases r.outcome) [
        | inl hit ↦ (λ _. inl (m.0 hit), λ _. rw (r.results, hit))
        | inr miss ↦
            let ih = scan-any_of (suc i) xs r.rest (rw miss at r.continued) in
            (
              λ e. inr (ih.0 (rw (r.results, miss) at e)),
              λ d. elim d [ inl p ↦ cc (m.1 p) | inr q ↦ rw (r.results, miss) (ih.1 q) ],
            )
      ]

  scan-all :
      (i : ℕ) (xs : List X) (s : List T × List Bool)
      → scan all_of stopped run result i false xs ≡ ok s
      → (all (λ value. value) s.1 ≡ true) ↔ All H xs
  unfolding scan
  scan-all i [] s h = ground arith
  scan-all i (x ∷ xs) s h =
      let r = scan-Round all_of stopped run result i x xs s h in
      let m = means i x r.trace r.outcome r.ran r.resulted in
      elim (Bool-cases r.outcome) [
        | inl pass ↦
            let ih = scan-all (suc i) xs r.rest (rw pass at r.continued) in
            (
              λ e. (m.0 pass, ih.0 (rw (r.results, pass) at e)),
              λ a. rw (r.results, pass) (ih.1 a.1),
            )
        | inr fail ↦ (λ e. absurd (false≢true (rw (r.results, fail) at e)), λ a. cc (m.1 a.0))
      ]

  scan-all_of :
      (i : ℕ) (xs : List X) (s : List T × List Bool)
      → scan all_of stopped run result i false xs ≡ ok s
      → (combine all_of s.1 ≡ true) ↔ Quantified all_of H xs
  unfolding scan combine
  scan-all_of i [] s h = (λ e. ground arith, λ q. absurd (q.0 refl))
  scan-all_of i (x ∷ xs) s h =
      let r = scan-Round all_of stopped run result i x xs s h in
      let every = scan-all i (x ∷ xs) s h in
      (
        λ e. (λ empty. cc, every.0 (rw r.results (rw r.results at e))),
        λ q. let a = every.1 q.1 in rw r.results (rw r.results at a),
      )

  -- Whatever the mode, a scan that succeeds yields the results by which `combine` decides whether
  -- `H` holds, as the mode quantifies it, of the whole list.
  pub scan-Quantified :
      (mode : GroupMode) (xs : List X) (s : List T × List Bool)
      → scan mode stopped run result 0 false xs ≡ ok s
      → (combine mode s.1 ≡ true) ↔ Quantified mode H xs
  scan-Quantified all_of xs s h = scan-all_of 0 xs s h
  scan-Quantified any_of xs s h = scan-any_of 0 xs s h
