-- ===== src/Subscription/Schedule.antt =====
-- When a subscription runs (`SubscriptionSchedule` of crates/domain/src/subscription.rs).
pub mod Next
pub mod Limits
pub mod Reach
use pixiv_archive.Prelude.{
  ℕ, zero, suc, ◌≡◌, Bool, true, false, not, ◌&&◌, ◌||◌, Option, none, some, String, if◌then◌else◌,
  ltb, leb, Outcome, ok, err, expect, ◌>>=◌,
}
use pixiv_archive.Prelude.Int.{ℤ, pos, negsuc, checked_mul, checked_div, checked_successor}

-- Instants and durations of the crate `time`: `>`, `(now - then).whole_seconds()`,
-- `Duration::seconds`, `Duration::minutes`, which panics (`none`) when the number of seconds is out
-- of range, and `checked_add`.
pub record Clock : Type 1 where
  pub Instant : Type 0
  pub Duration : Type 0
  pub later : Instant → Instant → Bool
  pub whole_seconds_since : Instant → Instant → ℤ
  pub seconds : ℤ → Duration
  pub minutes : ℤ → Option Duration
  pub checked_add : Instant → Duration → Option Instant

abbrev pub min_interval_minutes : ℕ
min_interval_minutes = 15

abbrev pub max_interval_minutes : ℕ
max_interval_minutes = 43200

abbrev pub max_lookback_pages : ℕ
max_lookback_pages = 7

pub record SubscriptionSchedule : Type 0 where
  pub interval_minutes : ℤ
  pub lookback_pages : ℕ

pub data SubscriptionScheduleError : Type 0 where
  interval_minutes lookback_pages malformed out_of_range : SubscriptionScheduleError

abbrev pub Scheduled : Type 0 → Type 0
Scheduled A = Outcome SubscriptionScheduleError A

abbrev pub ok_or : {A : Type 0} → SubscriptionScheduleError → Option A → Scheduled A
ok_or e none = err e
ok_or e (some a) = ok a

-- The range test on the interval.
abbrev is_interval : ℤ → Bool
is_interval (pos n) = leb min_interval_minutes n && leb n max_interval_minutes
is_interval (negsuc n) = false

-- `u32::try_from`.
abbrev to_u32 : ℤ → Option ℕ
to_u32 (pos n) = if leb n 4294967295 then some n else none
to_u32 (negsuc n) = none

-- The rest of `new`, once the interval is accepted.
with_lookback : ℤ → ℤ → Scheduled SubscriptionSchedule
with_lookback interval lookback = do
  pages ← ok_or lookback_pages (to_u32 lookback)
  (if ltb max_lookback_pages pages
      then err lookback_pages
      else ok (record { interval_minutes = interval; lookback_pages = pages }))

unfoldable pub new : ℤ → ℤ → Scheduled SubscriptionSchedule
unfolding with_lookback
new interval lookback =
    if not (is_interval interval) then err interval_minutes else with_lookback interval lookback

-- A JSON value is what its integer fields are, by `get` and `as_i64` of serde_json.
module _ {Value : Type 0} (integer_field : Value → String → Option ℤ) where
  unfoldable pub parse : Value → Scheduled SubscriptionSchedule
  unfolding new
  parse value = do
    interval ← ok_or malformed (integer_field value "interval_minutes")
    lookback ← ok_or malformed (integer_field value "lookback_pages")
    new interval lookback

module _ ⦃C : Clock⦄ where
  open C use {Instant, later, whole_seconds_since, seconds, minutes, checked_add}

  unfoldable pub first_run_after : SubscriptionSchedule → Instant → Scheduled Instant
  first_run_after schedule now = do
    interval ← expect (minutes schedule.interval_minutes)
    ok_or out_of_range (checked_add now interval)

  -- The run after a moment that has passed.
  advance : SubscriptionSchedule → Instant → Instant → Scheduled Instant
  advance schedule scheduled_for now = do
    interval_seconds ← ok_or out_of_range (checked_mul schedule.interval_minutes (pos 60))
    elapsed ←
        ok_or out_of_range (checked_div (whole_seconds_since now scheduled_for) interval_seconds)
    occurrences ← ok_or out_of_range (checked_successor elapsed)
    advance_seconds ← ok_or out_of_range (checked_mul interval_seconds occurrences)
    ok_or out_of_range (checked_add scheduled_for (seconds advance_seconds))

  unfoldable pub next_run_after : SubscriptionSchedule → Instant → Instant → Scheduled Instant
  unfolding advance
  next_run_after schedule scheduled_for now =
      if later scheduled_for now then ok scheduled_for else advance schedule scheduled_for now
