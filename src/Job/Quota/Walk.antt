-- ===== src/Job/Quota/Walk.antt =====
-- Walks over the sequence of a rotation.
use pixiv_archive.Prelude.{
  ℕ, zero, suc, ◌+◌, ◌<◌, ◌%◌, List, [], ◌∷◌, ◌++◌, map, ◌≡◌, refl, sym, ap, ◌∙◌, some, length,
  length-append, get_elem?, Outcome, ok, ◌>>=◌, >>=-eq-ok, ok-injective, arith,
}
use mathlib.Core.Path.{subst}
use mathlib.Core.List.{append_assoc, map-append}
use native.Mathlib.Nat.{mod-eq_of_lt, mod_self}
use pixiv_archive.Job.Priority.{JobPriority}
use pixiv_archive.Job.Selection.{JobQuotaSelection, with_fallback}
use pixiv_archive.Job.Quota.{QueueQuotaError, QueueQuotaRotation, next_selection}

-- Several selections in a row, and the rotation after them.
unfoldable pub selections :
    ℕ → QueueQuotaRotation → Outcome QueueQuotaError (List JobQuotaSelection × QueueQuotaRotation)
selections zero r = ok ([], r)
selections (suc n) r = do
  (selection, next) ← next_selection r
  (rest, last) ← selections n next
  ok (selection ∷ rest, last)

abbrev pub at_cursor : List JobPriority → ℕ → QueueQuotaRotation
at_cursor s c = record { sequence = s; cursor = c }

abbrev pub fallbacks : List JobPriority → List JobQuotaSelection
fallbacks ps = map with_fallback ps

get_elem?-append :
    (before : List JobPriority) (p : JobPriority) (after : List JobPriority)
    → get_elem? (before ++ p ∷ after) (length before) ≡ some p
get_elem?-append [] p after = refl
get_elem?-append (_ ∷ before) p after = get_elem?-append before p after

pub selections-suc :
    (n : ℕ) (r next last : QueueQuotaRotation) (selection : JobQuotaSelection)
    (rest : List JobQuotaSelection)
    → next_selection r ≡ ok (selection, next)
    → selections n next ≡ ok (rest, last)
    → selections (suc n) r ≡ ok (selection ∷ rest, last)
unfolding selections
selections-suc n r next last selection rest first later = rw (first, later)

selections_add :
    (m n : ℕ) (r next last : QueueQuotaRotation) (first rest : List JobQuotaSelection)
    → selections m r ≡ ok (first, next)
    → selections n next ≡ ok (rest, last)
    → selections (m + n) r ≡ ok (first ++ rest, last)
unfolding selections
selections_add zero n r next last first rest a b =
    subst
      (λ q. selections n q.1 ≡ ok (rest, last) → selections (zero + n) r ≡ ok (q.0 ++ rest, last))
      (ok-injective a) (λ later. ap (λ k. selections k r) (omega arith) ∙ later) b
selections_add (suc m) n r next last first rest a b =
    let ((selection, second), first_step, run) = >>=-eq-ok (next_selection r) _ a in
    let ((others, third), other_steps, same) = >>=-eq-ok (selections m second) _ run in
    subst
      (λ q. selections n q.1 ≡ ok (rest, last) → selections (suc m + n) r ≡ ok (q.0 ++ rest, last))
      (ok-injective same)
      (λ later.
        ap (λ k. selections k r) {y = suc (m + n)} (omega arith)
        ∙ selections-suc (m + n) r second last selection (others ++ rest) first_step
            (selections_add m n second third last others rest other_steps later))
      b

module _ (s : List JobPriority) where
  one_step :
      (before rest : List JobPriority) (p : JobPriority) (c : ℕ)
      → s ≡ before ++ p ∷ rest
      → c ≡ length before
      → next_selection (at_cursor s c) ≡ ok (with_fallback p, at_cursor s ((c + 1) % length s))
  unfolding next_selection
  one_step before rest p c e k =
      let at : get_elem? s c ≡ some p = rw (e, k) (get_elem?-append before p rest) in rw at

  length_split :
      (before after : List JobPriority)
      → s ≡ before ++ after
      → length s ≡ length before + length after
  length_split before after e = ap length e ∙ length-append before after

  regroup :
      (before rest : List JobPriority) (p : JobPriority)
      → s ≡ before ++ p ∷ rest
      → s ≡ (before ++ p ∷ []) ++ rest
  regroup before rest p e = e ∙ sym (append_assoc before (p ∷ []) rest)

  next_place :
      (before : List JobPriority) (p : JobPriority) (c : ℕ)
      → c ≡ length before
      → c + 1 ≡ length (before ++ p ∷ [])
  next_place before p c k = omega (arith, k, length-append before (p ∷ []))

  -- Part of the way: the cursor stays in front of the rest of the sequence.
  part_way :
      (before middle after : List JobPriority) (c : ℕ)
      → s ≡ before ++ (middle ++ after)
      → c ≡ length before
      → c + length middle < length s
      → selections (length middle) (at_cursor s c)
        ≡ ok (fallbacks middle, at_cursor s (c + length middle))
  unfolding selections
  part_way before [] after c e k lt = ap (λ c'. ok ([], at_cursor s c')) (omega arith)
  part_way before (p ∷ middle) after c e k lt =
      let moved : (c + 1) % length s ≡ c + 1 = mod-eq_of_lt (omega (arith, lt)) in
      let step : next_selection (at_cursor s c) ≡ ok (with_fallback p, at_cursor s (c + 1)) =
        one_step before (middle ++ after) p c e k
        ∙ ap (λ c'. ok (with_fallback p, at_cursor s c')) moved in
      let later =
        part_way (before ++ p ∷ []) middle after (c + 1) (regroup before (middle ++ after) p e)
          (next_place before p c k) (omega (arith, lt)) in
      selections-suc (length middle) _ _ _ _ _ step
        (later ∙ ap (λ c'. ok (fallbacks middle, at_cursor s c')) (omega arith))

  -- To the end: the cursor returns to the start.
  to_end :
      (before : List JobPriority) (p : JobPriority) (after : List JobPriority) (c : ℕ)
      → s ≡ before ++ p ∷ after
      → c ≡ length before
      → selections (suc (length after)) (at_cursor s c) ≡ ok (fallbacks (p ∷ after), at_cursor s 0)
  unfolding selections
  to_end before p [] c e k =
      let sized : c + 1 ≡ length s = omega (arith, k, length_split before (p ∷ []) e) in
      let moved : (c + 1) % length s ≡ 0 = ap (λ n. n % length s) sized ∙ mod_self (length s) in
      selections-suc 0 _ _ _ _ _
        (one_step before [] p c e k ∙ ap (λ c'. ok (with_fallback p, at_cursor s c')) moved) refl
  to_end before p (q ∷ after) c e k =
      let moved : (c + 1) % length s ≡ c + 1 =
        mod-eq_of_lt (omega (arith, k, length_split before (p ∷ q ∷ after) e)) in
      selections-suc (suc (length after)) _ _ _ _ _
        (one_step before (q ∷ after) p c e k
          ∙ ap (λ c'. ok (with_fallback p, at_cursor s c')) moved)
        (to_end (before ++ p ∷ []) q after (c + 1) (regroup before (q ∷ after) p e)
          (next_place before p c k))

  -- A whole cycle from any place: the rest of the sequence, then its beginning.
  pub cycle :
      (before after : List JobPriority) (p : JobPriority)
      → s ≡ before ++ p ∷ after
      → selections (length s) (at_cursor s (length before))
        ≡ ok (fallbacks ((p ∷ after) ++ before), at_cursor s (length before))
  cycle before after p e =
      let sized = length_split before (p ∷ after) e in
      ap (λ n. selections n (at_cursor s (length before))) (omega (arith, sized))
      ∙ selections_add (suc (length after)) (length before) _ _ _ _ _
          (to_end before p after (length before) e refl)
          (part_way [] before (p ∷ after) 0 e refl (omega (arith, sized))
            ∙ ap (λ c. ok (fallbacks before, at_cursor s c)) (omega arith))
      ∙ ap (λ l. ok (l, at_cursor s (length before)))
          (sym (map-append with_fallback (p ∷ after) before))

pub place :
    (s : List JobPriority) (c : ℕ)
    → c < length s
    → (before after : List JobPriority) × (p : JobPriority) × (s ≡ before ++ p ∷ after)
      × (length before ≡ c)
place [] c lt = absurd (omega (arith, lt))
place (p ∷ s) zero lt = ([], s, p, refl, refl)
place (p ∷ s) (suc c) lt =
    let (before, after, q, e, k) = place s c (omega (arith, lt)) in
    (p ∷ before, after, q, ap (λ l. p ∷ l) e, ap suc k)
