-- ===== src/Rule/Platform.antt =====
-- What the rule engine takes from code that is not in the repository: the floating-point numbers
-- and the Unicode case mapping of the standard library, the instants of the crate `time`, and the
-- normal form of the crate `unicode-normalization`. No law is assumed here: a theorem that needs
-- one states it as a hypothesis.
use pixiv_archive.Prelude.{ℕ, Bool, Option, String}
use pixiv_archive.Prelude.Int.{ℤ}

pub record Platform : Type 1 where
  -- f64, its operators `<` and `<=`, `is_finite`, the test `(left - right).abs() < f64::EPSILON`,
  -- and the casts of an i64 and of an unsigned integer.
  pub Number : Type 0
  pub number_lt : Number → Number → Bool
  pub number_le : Number → Number → Bool
  pub is_finite : Number → Bool
  pub within_epsilon : Number → Number → Bool
  pub of_i64 : ℤ → Number
  pub of_unsigned : ℕ → Number
  -- OffsetDateTime, its comparisons, and `now - Duration::hours(amount)` and
  -- `now - Duration::days(amount)`, where `none` is the panic of the crate on a value that is out
  -- of range.
  pub Instant : Type 0
  pub instant_eq : Instant → Instant → Bool
  pub instant_lt : Instant → Instant → Bool
  pub instant_le : Instant → Instant → Bool
  pub minus_hours : Instant → ℤ → Option Instant
  pub minus_days : Instant → ℤ → Option Instant
  -- `value.nfkc().collect()` and `to_lowercase`.
  pub nfkc : String → String
  pub to_lowercase : String → String
