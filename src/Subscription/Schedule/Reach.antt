-- ===== src/Subscription/Schedule/Reach.antt =====
-- When the next run can be computed.
use pixiv_archive.Prelude.{
  ℕ, suc, ◌+◌, ◌-◌, ◌*◌, ◌/◌, ◌≤◌, ◌<◌, ◌≡◌, ap, ◌∙◌, inl, inr, some, ok, Bool-cases, arith,
}
use pixiv_archive.Prelude.Int.{ℤ, pos, in_i64-pos, checked_div-in_i64}
use native.Mathlib.Nat.{div-add-mod, div-le_self, mul-suc}
use pixiv_archive.Subscription.Schedule.{Clock, SubscriptionSchedule, advance, next_run_after, new}
use pixiv_archive.Subscription.Schedule.Limits.{new-IsAccepted}
use pixiv_archive.Subscription.Schedule.Next.{IsTimeline, passed_le}

module _ ⦃C : Clock⦄ where
  open C use {Instant, later, whole_seconds_since, seconds, checked_add}

  -- The next multiple of an interval is at most an interval away.
  reached :
      (elapsed s : ℕ)
      → 0 < s
      → (s * suc (elapsed / s) ≤ elapsed + s) × (suc (elapsed / s) ≤ suc elapsed)
  reached elapsed s positive =
      let split = mul-suc s (elapsed / s) in
      let whole = div-add-mod elapsed s in
      (omega (arith, split, whole), omega (arith, div-le_self elapsed s))

  advance_total :
      (schedule : SubscriptionSchedule) (past now t : Instant) (minutes elapsed : ℕ)
      → schedule.interval_minutes ≡ pos minutes
      → 0 < minutes
      → minutes ≤ 43200
      → whole_seconds_since now past ≡ pos elapsed
      → elapsed < 9000000000000000000
      → checked_add past (seconds (pos (minutes * 60 * suc (elapsed / (minutes * 60))))) ≡ some t
      → advance schedule past now ≡ ok t
  unfolding advance
  advance_total schedule past now t minutes elapsed given positive few gone recent at =
      let (near, fewer) = reached elapsed (minutes * 60) (omega (arith, positive)) in
      let first = in_i64-pos (minutes * 60) (omega (arith, few)) in
      let second =
        checked_div-in_i64 elapsed (minutes * 60) (omega (arith, positive))
        ∙ in_i64-pos (elapsed / (minutes * 60)) (omega (arith, fewer, recent)) in
      let third = in_i64-pos (suc (elapsed / (minutes * 60))) (omega (arith, fewer, recent)) in
      let fourth =
        in_i64-pos (minutes * 60 * suc (elapsed / (minutes * 60)))
          (omega (arith, near, few, recent)) in
      rw (given, first, gone, second, third, fourth, at)

  module _ (tick : Instant → ℕ) (timeline : IsTimeline tick) where
    -- On a clock that counts nanoseconds, the next run of an accepted schedule is computed, provided
    -- that the given run is less than 9 * 10^18 seconds ago and that every whole number of seconds
    -- after it, up to the longest interval after the moment, leads to an instant of the clock.
    pub next_run_after_total :
        (interval lookback : ℤ) (schedule : SubscriptionSchedule) (past now : Instant)
        → new interval lookback ≡ ok schedule
        → (tick now - tick past) / 1000000000 < 9000000000000000000
        → ((n : ℕ)
            → tick past + n * 1000000000 ≤ tick now + 2592000000000000
            → (t : Instant) × (checked_add past (seconds (pos n)) ≡ some t))
        → (t : Instant) × (next_run_after schedule past now ≡ ok t)
    unfolding next_run_after
    next_run_after_total interval lookback schedule past now made recent room =
        let (minutes, pages, e, low, high, _, _, is) =
          (new-IsAccepted interval lookback schedule).0 made in
        elim (Bool-cases (later past now)) [
          | inl ahead ↦ (past, rw ahead)
          | inr behind ↦
              let passed = passed_le tick timeline past now behind in
              let elapsed = (tick now - tick past) / 1000000000 in
              let (near, _) = reached elapsed (minutes * 60) (omega (arith, low)) in
              let whole = div-add-mod (tick now - tick past) 1000000000 in
              let (t, at) =
                room (minutes * 60 * suc (elapsed / (minutes * 60)))
                  (omega (arith, near, whole, high, passed)) in
              (
                t,
                rw behind (
                    advance_total schedule past now t minutes elapsed
                      (ap (λ x. x.interval_minutes) is) (omega (arith, low)) high
                      (timeline.since now past passed) recent at),
              )
        ]
