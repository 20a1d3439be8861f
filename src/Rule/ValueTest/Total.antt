-- ===== src/Rule/ValueTest/Total.antt =====
-- When the test of a value cannot panic.
use pixiv_archive.Prelude.{◌≡◌, refl, inl, inr, Bool, false, Option, some, ok, Option-cases, ◌&&◌}
use pixiv_archive.Prelude.Int.{ℤ}
use pixiv_archive.Rule.Platform.{Platform}
use pixiv_archive.Rule.Operator.{RuleOperator, recent_hours, recent_days}
use pixiv_archive.Rule.Value.{ConditionValue, FieldValue}
use pixiv_archive.Rule.Schema.{Condition}
use pixiv_archive.Rule.ValueTest.{test_operator, evaluate_value, recent, recent_date, amount_of}

module _ ⦃P : Platform⦄ where
  open P use {Instant, instant_le, minus_hours, minus_days}

  -- The moment that a recent-hours or recent-days test computes can be represented.
  abbrev pub Representable : RuleOperator → Option ConditionValue → Instant → Type 0
  Representable recent_hours value now =
      (amount : ℤ)
      → amount_of value ≡ some amount
      → (s : Instant) × (minus_hours now amount ≡ some s)
  Representable recent_days value now =
      (amount : ℤ)
      → amount_of value ≡ some amount
      → (s : Instant) × (minus_days now amount ≡ some s)
  Representable _ value now = Unit {0}

  recent_date_total :
      (minus : Instant → ℤ → Option Instant) (amount : ℤ) (v : Option FieldValue) (now s : Instant)
      → minus now amount ≡ some s
      → (b : Bool) × (recent_date minus amount v now ≡ ok b)
  unfolding recent_date
  recent_date_total minus amount (some (FieldValue.date left)) now s e =
      (instant_le s left && instant_le left now, rw e)
  recent_date_total minus amount _ now s e = (false, refl)

  recent_total :
      (minus : Instant → ℤ → Option Instant) (value : Option ConditionValue) (v : Option FieldValue)
      (now : Instant)
      → ((amount : ℤ) → amount_of value ≡ some amount → (s : Instant) × (minus now amount ≡ some s))
      → (b : Bool) × (recent minus value v now ≡ ok b)
  unfolding recent
  recent_total minus value v now h = elim (Option-cases (amount_of value)) [
    | inl absent ↦ (false, rw (absent, recent))
    | inr (amount, given) ↦
        let (s, e) = h amount given in
        let (b, tested) = recent_date_total minus amount v now s e in (b, rw (given, recent) tested)
  ]

  test_operator_total :
      (operator : RuleOperator) (c : Condition) (v : Option FieldValue) (now : Instant)
      → Representable operator c.value now
      → (b : Bool) × (test_operator operator c v now ≡ ok b)
  unfolding test_operator
  test_operator_total recent_hours c v now h = recent_total minus_hours c.value v now h
  test_operator_total recent_days c v now h = recent_total minus_days c.value v now h
  test_operator_total _ c v now h = (_, refl)

  pub evaluate_value_total :
      (c : Condition) (v : Option FieldValue) (now : Instant)
      → Representable c.operator c.value now
      → (b : Bool) × (evaluate_value c v now ≡ ok b)
  unfolding evaluate_value
  evaluate_value_total c v now h = test_operator_total c.operator c v now h
