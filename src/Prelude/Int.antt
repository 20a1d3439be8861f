-- ===== src/Prelude/Int.antt =====
-- Signed machine integers, over the native numbers.
use pixiv_archive.Prelude.Tests.{ltb, leb, if◌then◌else◌}
use Prim.Native.Nat.{ℕ, zero, suc, ◌*◌, ◌/◌, ◌<◌, ◌≤◌}
use mathlib.Core.Path.{◌≡◌, refl, sym}
use mathlib.Core.Option.{Option, none, some}
use native.Mathlib.Omega.{arith}
use mathlib.Core.Bool.{Bool, false}

-- `negsuc n` is -(n + 1).
pub data ℤ : Type 0 where
  pos : ℕ → ℤ
  negsuc : ℕ → ℤ

-- `value > 0`.
abbrev pub is_positive : ℤ → Bool
is_positive (pos n) = ltb 0 n
is_positive (negsuc n) = false

-- -n.
abbrev pub negative : ℕ → ℤ
negative zero = pos zero
negative (suc n) = negsuc n

abbrev pub times : ℤ → ℤ → ℤ
times (pos a) (pos b) = pos (a * b)
times (pos a) (negsuc b) = negative (a * suc b)
times (negsuc a) (pos b) = negative (suc a * b)
times (negsuc a) (negsuc b) = pos (suc a * suc b)

-- The quotient, rounded towards zero.
abbrev pub quotient : ℤ → ℤ → ℤ
quotient (pos a) (pos b) = pos (a / b)
quotient (pos a) (negsuc b) = negative (a / suc b)
quotient (negsuc a) (pos b) = negative (suc a / b)
quotient (negsuc a) (negsuc b) = pos (suc a / suc b)

abbrev pub successor : ℤ → ℤ
successor (pos n) = pos (suc n)
successor (negsuc zero) = pos zero
successor (negsuc (suc n)) = negsuc n

-- The value, if it is in the range of an i64: -(n + 1) is at least -2^63 if n is at most 2^63 - 1.
unfoldable pub in_i64 : ℤ → Option ℤ
in_i64 (pos n) = if leb n 9223372036854775807 then some (pos n) else none
in_i64 (negsuc n) = if leb n 9223372036854775807 then some (negsuc n) else none

abbrev pub checked_mul : ℤ → ℤ → Option ℤ
checked_mul a b = in_i64 (times a b)

abbrev pub checked_div : ℤ → ℤ → Option ℤ
checked_div a (pos zero) = none
checked_div a (pos (suc b)) = in_i64 (quotient a (pos (suc b)))
checked_div a (negsuc b) = in_i64 (quotient a (negsuc b))

-- `checked_add(1)`.
abbrev pub checked_successor : ℤ → Option ℤ
checked_successor a = in_i64 (successor a)

pub in_i64-some : (a b : ℤ) → in_i64 a ≡ some b → a ≡ b
unfolding in_i64
in_i64-some (pos n) b h = ground arith
in_i64-some (negsuc n) b h = ground arith

pub checked_mul-pos : (a b : ℕ) (c : ℤ) → checked_mul (pos a) (pos b) ≡ some c → c ≡ pos (a * b)
checked_mul-pos a b c h = sym (in_i64-some (pos (a * b)) c h)

pub checked_div-pos :
    (a b : ℕ) (c : ℤ) → 0 < b → checked_div (pos a) (pos b) ≡ some c → c ≡ pos (a / b)
checked_div-pos a zero c positive h = absurd (omega (arith, positive))
checked_div-pos a (suc b) c positive h = sym (in_i64-some (pos (a / suc b)) c h)

pub checked_successor-pos : (a : ℕ) (c : ℤ) → checked_successor (pos a) ≡ some c → c ≡ pos (suc a)
checked_successor-pos a c h = sym (in_i64-some (pos (suc a)) c h)

pub in_i64-pos : (n : ℕ) → n ≤ 9223372036854775807 → in_i64 (pos n) ≡ some (pos n)
unfolding in_i64
in_i64-pos n h = ground arith

pub checked_div-in_i64 : (a b : ℕ) → 0 < b → checked_div (pos a) (pos b) ≡ in_i64 (pos (a / b))
checked_div-in_i64 a zero positive = absurd (omega (arith, positive))
checked_div-in_i64 a (suc b) positive = refl
