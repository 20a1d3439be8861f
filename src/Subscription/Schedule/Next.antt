-- ===== src/Subscription/Schedule/Next.antt =====
-- The next run of a subscription, on a clock that counts nanoseconds.
use pixiv_archive.Prelude.{
  ℕ, suc, ◌+◌, ◌-◌, ◌*◌, ◌/◌, ◌%◌, ◌≤◌, ◌<◌, ◌≡◌, refl, sym, ap, ◌∙◌, ◌⊎◌, inl, inr, ◌↔◌, true,
  false, Option, none, some, leb, ok, >>=-eq-ok, ok-injective, Bool-cases, arith,
}
use pixiv_archive.Prelude.Int.{
  ℤ, pos, checked_mul, checked_div, checked_successor, checked_mul-pos, checked_div-pos,
  checked_successor-pos,
}
use native.Mathlib.Nat.{div-add-mod, mod-lt, mul-suc, mul_comm, mul_assoc}
use mathlib.Core.Path.{subst}
use pixiv_archive.Subscription.Schedule.{
  Clock, SubscriptionScheduleError, SubscriptionSchedule, out_of_range, ok_or, advance,
  next_run_after, new,
}
use pixiv_archive.Subscription.Schedule.Limits.{new-IsAccepted}

abbrev nanoseconds : ℕ
nanoseconds = 1000000000

module _ ⦃C : Clock⦄ where
  open C use {Instant, later, whole_seconds_since, seconds, checked_add}

  -- What the crate documents of instants, when each is counted in nanoseconds from the earliest.
  pub record IsTimeline (tick : Instant → ℕ) : Type 0 where
    pub later_iff : (a b : Instant) → (later a b ≡ true) ↔ (tick b < tick a)
    pub since :
        (now past : Instant)
        → tick past ≤ tick now
        → whole_seconds_since now past ≡ pos ((tick now - tick past) / nanoseconds)
    pub added :
        (past t : Instant) (n : ℕ)
        → checked_add past (seconds (pos n)) ≡ some t
        → tick t ≡ tick past + n * nanoseconds

  -- The time between two runs.
  abbrev pub period : ℕ → ℕ
  period minutes = minutes * 60 * nanoseconds

  some_left :
      {A : Type 0} (e : SubscriptionScheduleError) (o : Option A) {a : A}
      → ok_or e o ≡ ok a
      → o ≡ some a
  some_left e none h = cc
  some_left e (some b) h = cc

  -- The steps of the computation for a moment that has passed.
  advanced :
      (schedule : SubscriptionSchedule) (past now t : Instant) (minutes elapsed : ℕ)
      → schedule.interval_minutes ≡ pos minutes
      → 0 < minutes
      → whole_seconds_since now past ≡ pos elapsed
      → advance schedule past now ≡ ok t
      → checked_add past (seconds (pos (minutes * 60 * suc (elapsed / (minutes * 60))))) ≡ some t
  unfolding advance
  advanced schedule past now t minutes elapsed given positive gone h =
      let (interval, a, h1) =
        >>=-eq-ok (ok_or out_of_range (checked_mul schedule.interval_minutes (pos 60))) _ h in
      let interval_is : interval ≡ pos (minutes * 60) =
        checked_mul-pos minutes 60 interval
          (ap (λ z. checked_mul z (pos 60)) (sym given) ∙ some_left _ _ a) in
      let (whole, b, h2) =
        >>=-eq-ok (ok_or out_of_range (checked_div (whole_seconds_since now past) interval)) _ h1 in
      let whole_is : whole ≡ pos (elapsed / (minutes * 60)) =
        checked_div-pos elapsed (minutes * 60) whole (omega (arith, positive)) (
          ap (λ z. checked_div (pos elapsed) z) (sym interval_is)
          ∙ ap (λ z. checked_div z interval) (sym gone)
          ∙ some_left _ _ b) in
      let (occurrences, c, h3) = >>=-eq-ok (ok_or out_of_range (checked_successor whole)) _ h2 in
      let occurrences_is : occurrences ≡ pos (suc (elapsed / (minutes * 60))) =
        checked_successor-pos _ occurrences
          (ap checked_successor (sym whole_is) ∙ some_left _ _ c) in
      let (total, d, h4) = >>=-eq-ok (ok_or out_of_range (checked_mul interval occurrences)) _ h3 in
      let total_is : total ≡ pos (minutes * 60 * suc (elapsed / (minutes * 60))) =
        checked_mul-pos _ _ total (
          ap (λ z. checked_mul z (pos (suc (elapsed / (minutes * 60))))) (sym interval_is)
          ∙ ap (λ z. checked_mul interval z) (sym occurrences_is)
          ∙ some_left _ _ d) in
      ap (λ z. checked_add past (seconds z)) (sym total_is) ∙ some_left _ _ h4

  -- Rounding: with `q` whole intervals of `s` seconds in the whole seconds of `e` nanoseconds, the
  -- next interval ends after `e`, at most one interval later.
  rounded :
      (e s : ℕ)
      → 0 < s
      → (e < s * suc (e / nanoseconds / s) * nanoseconds)
        × (s * suc (e / nanoseconds / s) * nanoseconds ≤ e + s * nanoseconds)
  rounded e s positive =
      let w = e / nanoseconds in
      let q = w / s in
      let split : s * suc q ≡ s * q + s = mul-suc s q in
      let whole : s * q + w % s ≡ w = div-add-mod w s in
      let less : w % s < s = mod-lt w positive in
      let outer : nanoseconds * w + e % nanoseconds ≡ e = div-add-mod e nanoseconds in
      let small : e % nanoseconds < nanoseconds = mod-lt e (omega arith) in
      (
        omega (arith, split, whole, less, outer, small),
        omega (arith, split, whole, less, outer, small),
      )

  module _ (tick : Instant → ℕ) where
    -- A later run on the grid of the schedule: after the moment, and at most one period after it
    -- unless the run was already to come.
    abbrev pub IsNext : ℕ → Instant → Instant → Instant → Type 0
    IsNext minutes past now t =
        (tick now < tick t)
        × ((runs : ℕ) × (tick t ≡ tick past + runs * period minutes)
            × ((runs ≡ 0) ⊎ (tick t ≤ tick now + period minutes)))

  module _ (tick : Instant → ℕ) (timeline : IsTimeline tick) where
    pub passed_le : (past now : Instant) → later past now ≡ false → tick past ≤ tick now
    passed_le past now behind = elim (Bool-cases (leb (tick past) (tick now))) [
      | inl le ↦ ground arith
      | inr gt ↦ cc (behind, (timeline.later_iff past now).1 (ground arith))
    ]

    advance-IsNext :
        (schedule : SubscriptionSchedule) (past now t : Instant) (minutes : ℕ)
        → schedule.interval_minutes ≡ pos minutes
        → 0 < minutes
        → tick past ≤ tick now
        → advance schedule past now ≡ ok t
        → IsNext tick minutes past now t
    advance-IsNext schedule past now t minutes given positive passed h =
        let e = tick now - tick past in
        let q = e / nanoseconds / (minutes * 60) in
        let gone = timeline.since now past passed in
        let at =
          timeline.added past t (minutes * 60 * suc q)
            (advanced schedule past now t minutes (e / nanoseconds) given positive gone h) in
        let (after, near) = rounded e (minutes * 60) (omega (arith, positive)) in
        let grid : minutes * 60 * suc q * nanoseconds ≡ suc q * period minutes =
          ap (λ n. n * nanoseconds) (mul_comm (minutes * 60) (suc q))
          ∙ mul_assoc (suc q) (minutes * 60) nanoseconds in
        (
          omega (arith, at, after, passed),
          (suc q, omega (arith, at, grid), inr (omega (arith, at, near, passed))),
        )

    -- On such a timeline, a run that an accepted schedule computes is after the given moment and a
    -- whole number of intervals after the given run; it is that run itself if that was still to
    -- come, and otherwise at most one interval after the moment.
    pub next_run_after-IsNext :
        (interval lookback : ℤ) (schedule : SubscriptionSchedule) (past now t : Instant)
        → new interval lookback ≡ ok schedule
        → next_run_after schedule past now ≡ ok t
        → (minutes : ℕ) × (interval ≡ pos minutes) × IsNext tick minutes past now t
    unfolding next_run_after
    next_run_after-IsNext interval lookback schedule past now t made h =
        let (minutes, pages, e, low, _, _, _, is) =
          (new-IsAccepted interval lookback schedule).0 made in
        elim (Bool-cases (later past now)) [
          | inl ahead ↦
              let same : past ≡ t = ok-injective (rw (ahead, next_run_after) at h) in
              (
                minutes,
                e,
                subst (λ u. IsNext tick minutes past now u) same
                    ((timeline.later_iff past now).0 ahead, (0, omega arith, inl refl)),
              )
          | inr behind ↦
              let passed : tick past ≤ tick now = passed_le past now behind in
              (
                minutes,
                e,
                advance-IsNext schedule past now t minutes (ap (λ x. x.interval_minutes) is)
                    (omega (arith, low)) passed (rw (behind, next_run_after) at h),
              )
        ]
