-- ===== src/Decimal/Order.antt =====
-- The order of exact numbers: comparison is a total preorder, read off the cross products.
use native.Mathlib.Nat.{le_of_mul-le-mul_right, mul-le-mul_right}
use hta.Common.{
  ℕ, suc, ◌+◌, ◌*◌, ◌≤◌, ◌<◌, ◌≡◌, refl, ◌⊎◌, inl, inr, ◌↔◌, true, false, arith, ltb_iff,
  not-ltb_iff, Bool-cases, ==_iff,
}
use hta.Decimal.{Decimal, nought, cross, ◌<?◌, ◌=?◌, magnitude, lesser, greater}

infix 50 ◌≼◌ ◌≺◌
-- `a <= b` and `a < b` as statements.
abbrev pub ◌≼◌ : Decimal → Decimal → Type 0
a ≼ b = (b <? a) ≡ false

abbrev pub ◌≺◌ : Decimal → Decimal → Type 0
a ≺ b = (a <? b) ≡ true

pub ≼_cross : (a b : Decimal) → (a ≼ b) ↔ (cross a b ≤ cross b a)
unfolding ◌<?◌
≼_cross a b = not-ltb_iff (cross b a) (cross a b)

pub ≺_cross : (a b : Decimal) → (a ≺ b) ↔ (cross a b < cross b a)
unfolding ◌<?◌
≺_cross a b = ltb_iff (cross a b) (cross b a)

pub =?_cross : (a b : Decimal) → ((a =? b) ≡ true) ↔ (cross a b ≡ cross b a)
unfolding ◌=?◌
=?_cross a b = ==_iff (cross a b) (cross b a)

pub ≼_refl : (a : Decimal) → a ≼ a
≼_refl a = (≼_cross a a).1 (omega arith)

pub ≼_total : (a b : Decimal) → (a ≼ b) ⊎ (b ≺ a)
≼_total a b = elim (Bool-cases (b <? a)) [ inl h ↦ inr h | inr h ↦ inl h ]

pub ≼_of_≺ : (a b : Decimal) → a ≺ b → a ≼ b
≼_of_≺ a b h = (≼_cross a b).1 (omega (arith, (≺_cross a b).0 h))

-- The sum of two inequalities between fractions, after each is scaled by the other's denominator.
chain :
    (pa ma pb mb pc mc ka kb kc : ℕ)
    → pa * suc kb + mb * suc ka ≤ pb * suc ka + ma * suc kb
    → pb * suc kc + mc * suc kb ≤ pc * suc kb + mb * suc kc
    → (pa * suc kc + mc * suc ka) * suc kb ≤ (pc * suc ka + ma * suc kc) * suc kb
chain pa ma pb mb pc mc ka kb kc h k =
    omega (arith, mul-le-mul_right (suc kc) h, mul-le-mul_right (suc ka) k)

pub ≼_trans : (a b c : Decimal) → a ≼ b → b ≼ c → a ≼ c
≼_trans a b c h k = (≼_cross a c).1 (
    le_of_mul-le-mul_right
      (chain a.plus a.minus b.plus b.minus c.plus c.minus a.less b.less c.less ((≼_cross a b).0 h)
        ((≼_cross b c).0 k))
      (omega arith))

pub magnitude_nonneg : (a : Decimal) → nought ≼ magnitude a
unfolding magnitude ◌<?◌
magnitude_nonneg a = ground arith

pub lesser-≼_left : (a b : Decimal) → lesser a b ≼ a
unfolding lesser
lesser-≼_left a b = elim (Bool-cases (b <? a)) [
  | inl h ↦ rw h (≼_of_≺ b a h)
  | inr h ↦ rw h (≼_refl a)
]

pub lesser-≼_right : (a b : Decimal) → lesser a b ≼ b
unfolding lesser
lesser-≼_right a b = elim (Bool-cases (b <? a)) [ inl h ↦ rw h (≼_refl b) | inr h ↦ rw h h ]

pub ≼-greater_left : (a b : Decimal) → a ≼ greater a b
unfolding greater
≼-greater_left a b = elim (Bool-cases (a <? b)) [
  | inl h ↦ rw h (≼_of_≺ a b h)
  | inr h ↦ rw h (≼_refl a)
]

pub ≼-greater_right : (a b : Decimal) → b ≼ greater a b
unfolding greater
≼-greater_right a b = elim (Bool-cases (a <? b)) [ inl h ↦ rw h (≼_refl b) | inr h ↦ rw h h ]

-- The lesser of two numbers above a bound is above it.
pub ≼-lesser : (c a b : Decimal) → c ≼ a → c ≼ b → c ≼ lesser a b
unfolding lesser
≼-lesser c a b h k = elim (Bool-cases (b <? a)) [ inl e ↦ rw e k | inr e ↦ rw e h ]

-- A number that is not 0 is on one side of it.
pub ≺_of_ne : (a : Decimal) → (a =? nought) ≡ false → nought ≼ a → nought ≺ a
unfolding ◌=?◌ ◌<?◌
≺_of_ne a h k = ground arith

pub ≻_of_ne : (a : Decimal) → (a =? nought) ≡ false → a ≼ nought → a ≺ nought
unfolding ◌=?◌ ◌<?◌
≻_of_ne a h k = ground arith

pub magnitude-nought : magnitude nought ≡ nought
unfolding magnitude ◌<?◌
magnitude-nought = refl

-- A number that is not below c is not below anything up to c.
pub ≺_of_≼-≺ : (a b c : Decimal) → a ≼ b → b ≺ c → a ≺ c
≺_of_≼-≺ a b c h k = elim (Bool-cases (a <? c)) [
  | inl e ↦ e
  | inr e ↦ absurd (let above = ≼_trans c a b e h in cc)
]

pub ≺_of_≺-≼ : (a b c : Decimal) → a ≺ b → b ≼ c → a ≺ c
≺_of_≺-≼ a b c h k = elim (Bool-cases (a <? c)) [
  | inl e ↦ e
  | inr e ↦ absurd (let below = ≼_trans b c a k e in cc)
]
