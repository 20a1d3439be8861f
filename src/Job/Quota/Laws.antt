-- ===== src/Job/Quota/Laws.antt =====
-- Cycles of the rotation over the priorities (`next_selection` of crates/application/src/jobs.rs).
use pixiv_archive.Prelude.{
  ℕ, zero, suc, ◌+◌, ◌<◌, ◌%◌, List, [], ◌∷◌, ◌++◌, ◌≡◌, refl, sym, ap, ◌∙◌, ◌≢◌, length,
  length-append, length-replicate, get_elem?, get_elem?-total, replicate, ok, expect, >>=-eq-ok,
  ok-injective, if◌then◌else◌, arith,
}
use mathlib.Core.Path.{subst}
use native.Mathlib.Nat.{mod-lt}
use pixiv_archive.Job.Priority.{JobPriority}
use pixiv_archive.Job.Selection.{JobQuotaSelection, with_fallback, same_priority}
use pixiv_archive.Job.Selection.Laws.{occurrences}
use pixiv_archive.Job.Quota.{
  QueueQuotaWeights, QueueQuotaRotation, sequence, rotation, next_selection, new,
}
use pixiv_archive.Job.Quota.Walk.{selections-suc, selections, at_cursor, fallbacks, cycle, place}

occurrences-append :
    (q : JobPriority) (ps qs : List JobPriority)
    → occurrences q (ps ++ qs) ≡ occurrences q ps + occurrences q qs
unfolding occurrences
occurrences-append q [] qs = omega arith
occurrences-append q (p ∷ ps) qs = ground (arith, occurrences-append q ps qs)

occurrences-replicate :
    (q p : JobPriority) (n : ℕ)
    → occurrences q (replicate n p) ≡ (if same_priority p q then n else 0)
unfolding occurrences
occurrences-replicate q p zero = ground arith
occurrences-replicate q p (suc n) = ground (arith, occurrences-replicate q p n)

-- The weight of a priority.
abbrev pub weight : QueueQuotaWeights → JobPriority → ℕ
weight w JobPriority.immediate = w.immediate
weight w JobPriority.manual_import = w.manual_import
weight w JobPriority.scheduled_collection = w.scheduled_collection
weight w JobPriority.background_maintenance = w.background_maintenance

occurrences-sequence :
    (w : QueueQuotaWeights) (q : JobPriority) → occurrences q (sequence w) ≡ weight w q
unfolding sequence same_priority
occurrences-sequence w q =
    let m = replicate w.manual_import JobPriority.manual_import in
    let i = replicate w.immediate JobPriority.immediate in
    let s = replicate w.scheduled_collection JobPriority.scheduled_collection in
    let b = replicate w.background_maintenance JobPriority.background_maintenance in
    ground (
      arith,
      occurrences-append q (m ++ i ++ s) b,
      occurrences-append q (m ++ i) s,
      occurrences-append q m i,
      occurrences-replicate q JobPriority.manual_import w.manual_import,
      occurrences-replicate q JobPriority.immediate w.immediate,
      occurrences-replicate q JobPriority.scheduled_collection w.scheduled_collection,
      occurrences-replicate q JobPriority.background_maintenance w.background_maintenance,
    )

module _ (w : QueueQuotaWeights) where
  -- A rotation over those weights, with its cursor in range.
  abbrev pub IsOnCourse : QueueQuotaRotation → Type 0
  IsOnCourse r = (r.sequence ≡ sequence w) × (r.cursor < length r.sequence)

  next_selection-IsOnCourse :
      (r next : QueueQuotaRotation) (selection : JobQuotaSelection)
      → IsOnCourse r
      → next_selection r ≡ ok (selection, next)
      → IsOnCourse next
  unfolding next_selection
  next_selection-IsOnCourse r next selection course h =
      let (p, found, same) = >>=-eq-ok (expect (get_elem? r.sequence r.cursor)) _ h in
      let moved : record r { cursor = (r.cursor + 1) % length r.sequence } ≡ next =
        ap (λ q. q.1) (ok-injective same) in
      subst IsOnCourse moved (course.0, mod-lt (r.cursor + 1) (omega (arith, course.1)))

  selections-IsOnCourse :
      (n : ℕ) (r last : QueueQuotaRotation) (first : List JobQuotaSelection)
      → IsOnCourse r
      → selections n r ≡ ok (first, last)
      → IsOnCourse last
  unfolding selections
  selections-IsOnCourse zero r last first course h =
      subst (λ q. IsOnCourse q.1) (ok-injective h) course
  selections-IsOnCourse (suc n) r last first course h =
      let ((selection, next), step, run) = >>=-eq-ok (next_selection r) _ h in
      let ((others, third), later, same) = >>=-eq-ok (selections n next) _ run in
      subst (λ q. IsOnCourse q.1) (ok-injective same)
        (selections-IsOnCourse n next third others
          (next_selection-IsOnCourse r next selection course step) later)

  IsOnCourse-cycle :
      (r : QueueQuotaRotation)
      → IsOnCourse r
      → (round : List JobPriority) × (selections (length (sequence w)) r ≡ ok (fallbacks round, r))
        × ((q : JobPriority) → occurrences q round ≡ weight w q)
  IsOnCourse-cycle r course =
      let (before, after, p, e, k) = place r.sequence r.cursor course.1 in
      let turned = cycle r.sequence before after p e in
      (
        (p ∷ after) ++ before,
        ap (λ n. selections n r) (ap length (sym course.0))
            ∙ subst
                (λ c.
                  selections (length r.sequence) (at_cursor r.sequence c)
                  ≡ ok (fallbacks ((p ∷ after) ++ before), at_cursor r.sequence c))
                k turned,
        λ q. omega (
          arith,
          occurrences-append q (p ∷ after) before,
          occurrences-append q before (p ∷ after),
          ap (occurrences q) e,
          ap (occurrences q) course.0,
          occurrences-sequence w q,
        ),
      )

  some_length : w.immediate ≢ 0 → 0 < length (sequence w)
  unfolding sequence
  some_length some_weight =
      let m = replicate w.manual_import JobPriority.manual_import in
      let i = replicate w.immediate JobPriority.immediate in
      let s = replicate w.scheduled_collection JobPriority.scheduled_collection in
      let b = replicate w.background_maintenance JobPriority.background_maintenance in
      omega (
        arith,
        some_weight,
        length-append (m ++ i ++ s) b,
        length-append (m ++ i) s,
        length-append m i,
        length-replicate w.immediate JobPriority.immediate,
      )

  start-IsOnCourse : (i m s b : ℕ) → new i m s b ≡ ok w → IsOnCourse (rotation w)
  unfolding rotation new
  start-IsOnCourse i m s b made = (refl, some_length (λ e. ground arith))

  selections_total :
      (n : ℕ) (r : QueueQuotaRotation)
      → IsOnCourse r
      → (first : List JobQuotaSelection) × (last : QueueQuotaRotation) × (selections n r
          ≡ ok (first, last))
  unfolding selections next_selection
  selections_total zero r course = ([], r, refl)
  selections_total (suc n) r course =
      let (p, at) = get_elem?-total r.sequence r.cursor course.1 in
      let next : QueueQuotaRotation = record r { cursor = (r.cursor + 1) % length r.sequence } in
      let step : next_selection r ≡ ok (with_fallback p, next) = rw at refl in
      let (rest, last, later) =
        selections_total n next (next_selection-IsOnCourse r next (with_fallback p) course step) in
      (with_fallback p ∷ rest, last, selections-suc n r next last (with_fallback p) rest step later)

  -- A rotation over weights that were accepted never fails. After any number of selections, the
  -- next cycle of selections has every priority first as often as its weight says, and brings the
  -- rotation back to where it was.
  pub rotation-fair :
      (i m s b n : ℕ)
      → new i m s b ≡ ok w
      → (earlier : List JobQuotaSelection) × (r : QueueQuotaRotation) × (selections n (rotation w)
          ≡ ok (earlier, r))
        × ((round : List JobPriority) × (selections (length (sequence w)) r
              ≡ ok (fallbacks round, r))
            × ((q : JobPriority) → occurrences q round ≡ weight w q))
  rotation-fair i m s b n made =
      let start = start-IsOnCourse i m s b made in
      let (earlier, r, run) = selections_total n (rotation w) start in
      (
        earlier,
        r,
        run,
        IsOnCourse-cycle r (selections-IsOnCourse n (rotation w) r earlier start run),
      )
