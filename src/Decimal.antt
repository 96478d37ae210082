-- ===== src/Decimal.antt =====
-- Python's `decimal.Decimal`, and the finite values of `float`, as exact numbers: the rounding of
-- results to 28 significant digits (53 bits) is left out. A number is (plus - minus) / (less + 1), which
-- is kept as it comes: as in Python, 1.0 and 1.00 are two values that compare as equal.
pub mod Order
pub mod Arith
pub mod Sums
use hta.Common.{ℕ, suc, ◌+◌, ◌-◌, ◌*◌, ◌/◌, ◌%◌, Bool, true, false, not, ltb, ◌==◌, if◌then◌else◌}

pub record Decimal : Type 0 where
  pub plus : ℕ
  pub minus : ℕ
  pub less : ℕ

-- `Decimal(n)`
abbrev pub whole : ℕ → Decimal
whole n = record { plus = n; minus = 0; less = 0 }

-- n / (k + 1), for literals such as `Decimal("0.25")`.
abbrev pub ratio : ℕ → ℕ → Decimal
ratio n k = record { plus = n; minus = 0; less = k }

abbrev pub nought : Decimal
nought = whole 0

infixl 65 ◌⊕◌ ◌⊖◌
infixl 70 ◌⊗◌ ◌⊘◌
infix 50 ◌<?◌ ◌≤?◌ ◌=?◌
unfoldable pub ◌⊕◌ : Decimal → Decimal → Decimal
a ⊕ b = record {
  plus = a.plus * suc b.less + b.plus * suc a.less;
  minus = a.minus * suc b.less + b.minus * suc a.less;
  less = a.less * b.less + a.less + b.less;
}

-- `-a`
abbrev pub opposite : Decimal → Decimal
opposite a = record { plus = a.minus; minus = a.plus; less = a.less }

abbrev pub ◌⊖◌ : Decimal → Decimal → Decimal
a ⊖ b = a ⊕ opposite b

unfoldable pub ◌⊗◌ : Decimal → Decimal → Decimal
a ⊗ b = record {
  plus = a.plus * b.plus + a.minus * b.minus;
  minus = a.plus * b.minus + a.minus * b.plus;
  less = a.less * b.less + a.less + b.less;
}

-- 1 / b. Each division of the program stands behind a test that excludes 0, where Python raises.
unfoldable pub inverse : Decimal → Decimal
inverse b =
    if ltb b.minus b.plus
    then record { plus = suc b.less; minus = 0; less = b.plus - b.minus - 1 }
    else if ltb b.plus b.minus
    then record { plus = 0; minus = suc b.less; less = b.minus - b.plus - 1 }
    else nought

abbrev pub ◌⊘◌ : Decimal → Decimal → Decimal
a ⊘ b = a ⊗ inverse b

-- The sides of a comparison, over a common denominator.
abbrev pub cross : Decimal → Decimal → ℕ
cross a b = a.plus * suc b.less + b.minus * suc a.less

unfoldable pub ◌<?◌ : Decimal → Decimal → Bool
a <? b = ltb (cross a b) (cross b a)

-- `a <= b`, which for numbers is `not b < a`.
abbrev pub ◌≤?◌ : Decimal → Decimal → Bool
a ≤? b = not (b <? a)

unfoldable pub ◌=?◌ : Decimal → Decimal → Bool
a =? b = cross a b == cross b a

-- `abs(a)`
unfoldable pub magnitude : Decimal → Decimal
magnitude a = if a <? nought then opposite a else a

-- `min(a, b)` and `max(a, b)` return the first of two equal arguments.
unfoldable pub lesser : Decimal → Decimal → Decimal
lesser a b = if b <? a then b else a

unfoldable pub greater : Decimal → Decimal → Decimal
greater a b = if a <? b then b else a

-- The nearest multiple of 1/10⁸ to n/d, and of two that are as near the even one.
abbrev pub round_half_even : ℕ → ℕ → ℕ
round_half_even n d =
    let q = n / d in
    let r = n % d in
    if ltb (2 * r) d then q else if ltb d (2 * r) then q + 1 else if q % 2 == 0 then q else q + 1

-- `a.quantize(Decimal("0.00000001"))`
unfoldable pub quantize : Decimal → Decimal
quantize a = record {
  plus = round_half_even ((a.plus - a.minus) * 100000000) (suc a.less);
  minus = round_half_even ((a.minus - a.plus) * 100000000) (suc a.less);
  less = 99999999;
}
