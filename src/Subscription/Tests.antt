-- ===== src/Subscription/Tests.antt =====
-- Schedules at concrete inputs, on a clock whose instants are numbers of nanoseconds.
use pixiv_archive.Prelude.{
  ℕ, ◌+◌, ◌-◌, ◌*◌, ◌/◌, ◌≡◌, refl, ◌↔◌, Option, none, some, ltb, ok, arith,
}
use pixiv_archive.Prelude.Int.{ℤ, pos, negsuc, times, in_i64}
use pixiv_archive.Subscription.Schedule.{Clock, SubscriptionSchedule, new, next_run_after}
use pixiv_archive.Subscription.Schedule.Limits.{IsAccepted, new-IsAccepted}
use pixiv_archive.Subscription.Schedule.Reach.{next_run_after_total}
use pixiv_archive.Subscription.Schedule.Next.{IsTimeline, IsNext, next_run_after-IsNext}

abbrev plus_seconds : ℕ → ℤ → Option ℕ
plus_seconds t (pos n) = some (t + n * 1000000000)
plus_seconds t (negsuc n) = none

instance abbrev nanosecond_clock : Clock
nanosecond_clock = record {
  Instant = ℕ;
  Duration = ℤ;
  later = λ a b. ltb b a;
  whole_seconds_since = λ now past. pos ((now - past) / 1000000000);
  seconds = λ n. n;
  minutes = λ n. some (times n (pos 60));
  checked_add = plus_seconds;
}

abbrev tick : ℕ → ℕ
tick t = t

nanoseconds-IsTimeline : IsTimeline tick
nanoseconds-IsTimeline = record {
  later_iff = λ a b. ground arith;
  since = λ now past le. refl;
  added = λ past t n h. ground arith;
}

abbrev quarter_hourly : SubscriptionSchedule
quarter_hourly = record { interval_minutes = pos 15; lookback_pages = 2 }

new-IsAccepted_example :
    (new (pos 15) (pos 2) ≡ ok quarter_hourly) ↔ IsAccepted (pos 15) (pos 2) quarter_hourly
new-IsAccepted_example = new-IsAccepted (pos 15) (pos 2) quarter_hourly

quarter_hourly_made : new (pos 15) (pos 2) ≡ ok quarter_hourly
unfolding new
quarter_hourly_made = refl

half_past : next_run_after quarter_hourly 0 1000000000000 ≡ ok 1800000000000
unfolding next_run_after in_i64
half_past = refl

next_run_after-IsNext_example :
    (minutes : ℕ) × (pos 15 ≡ pos minutes) × IsNext tick minutes 0 1000000000000 1800000000000
next_run_after-IsNext_example =
    next_run_after-IsNext tick nanoseconds-IsTimeline (pos 15) (pos 2) quarter_hourly 0
      1000000000000 1800000000000 quarter_hourly_made half_past

next_run_after_total_example : (t : ℕ) × (next_run_after quarter_hourly 0 1000000000000 ≡ ok t)
next_run_after_total_example =
    next_run_after_total tick nanoseconds-IsTimeline (pos 15) (pos 2) quarter_hourly 0 1000000000000
      quarter_hourly_made (omega arith) (λ n room. (0 + n * 1000000000, refl))
