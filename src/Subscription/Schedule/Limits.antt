-- ===== src/Subscription/Schedule/Limits.antt =====
-- Which schedules are accepted.
use pixiv_archive.Prelude.{ℕ, ◌≤◌, ◌≡◌, refl, ◌↔◌, ok, arith}
use pixiv_archive.Prelude.Int.{ℤ, pos, negsuc}
use pixiv_archive.Subscription.Schedule.{SubscriptionSchedule, new}

-- An interval within the limits, and a number of pages within its own.
abbrev pub IsAccepted : ℤ → ℤ → SubscriptionSchedule → Type 0
IsAccepted interval lookback schedule =
    (minutes pages : ℕ) × (interval ≡ pos minutes)
    × (15 ≤ minutes)
    × (minutes ≤ 43200)
    × (lookback ≡ pos pages)
    × (pages ≤ 7)
    × (schedule ≡ record { interval_minutes = pos minutes; lookback_pages = pages })

accepted :
    (interval lookback : ℤ) (schedule : SubscriptionSchedule)
    → new interval lookback ≡ ok schedule
    → IsAccepted interval lookback schedule
unfolding new
accepted (pos i) (pos l) schedule h =
    (i, l, refl, ground arith, ground arith, refl, ground arith, ground arith)
accepted (pos i) (negsuc l) schedule h = ground arith
accepted (negsuc i) lookback schedule h = ground arith

-- A schedule is made exactly from an interval of 15 to 43200 minutes and of 0 to 7 pages, and holds
-- them as given.
pub new-IsAccepted :
    (interval lookback : ℤ) (schedule : SubscriptionSchedule)
    → (new interval lookback ≡ ok schedule) ↔ IsAccepted interval lookback schedule
unfolding new
new-IsAccepted interval lookback schedule = (
  accepted interval lookback schedule,
  λ h. let (i, l, e, low, high, f, few, made) = h in ground (arith, made),
)
