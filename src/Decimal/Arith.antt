-- ===== src/Decimal/Arith.antt =====
-- Sums, products and quotients of exact numbers against their order.
use native.Mathlib.Nat.{mul-le-mul_right}
use mathlib.Core.Path.{subst, subst₂}
use hta.Common.{ℕ, suc, ◌+◌, ◌-◌, ◌*◌, ◌≤◌, ◌<◌, ◌≡◌, ◌↔◌, arith, ltb_iff}
use hta.Decimal.{Decimal, nought, opposite, cross, ◌⊕◌, ◌⊖◌, ◌⊗◌, ◌⊘◌, inverse, ◌<?◌}
use hta.Decimal.Order.{◌≼◌, ◌≺◌, ≼_cross, ≺_cross}

-- x <= y - z exactly when x + z <= y.
pub ≼-⊖ : (x y z : Decimal) → x ≼ y ⊖ z → x ⊕ z ≼ y
unfolding ◌⊕◌
≼-⊖ x y z h = (≼_cross (x ⊕ z) y).1 (omega (arith, (≼_cross x (y ⊖ z)).0 h))

pub ⊕_mono_left : (x y z : Decimal) → x ≼ y → x ⊕ z ≼ y ⊕ z
unfolding ◌⊕◌
⊕_mono_left x y z h =
    (≼_cross (x ⊕ z) (y ⊕ z)).1
      (omega (arith, mul-le-mul_right (suc z.less * suc z.less) ((≼_cross x y).0 h)))

gap_product : (m d n e : ℕ) → (m + d) * n + m * (n + e) ≤ (m + d) * (n + e) + m * n
gap_product m d n e = omega arith

-- (p - m) (q - n) is not negative.
product_of_gaps : (p m q n : ℕ) → m ≤ p → n ≤ q → p * n + m * q ≤ p * q + m * n
product_of_gaps p m q n h k =
    subst₂ (λ a b. a * n + m * b ≤ a * b + m * n) {x = m + (p - m)} {u = n + (q - n)} (omega arith)
      (omega arith) (gap_product m (p - m) n (q - n))

pub ⊗_nonneg : (x y : Decimal) → nought ≼ x → nought ≼ y → nought ≼ x ⊗ y
unfolding ◌⊗◌
⊗_nonneg x y h k = (≼_cross nought (x ⊗ y)).1 (
    omega (
      arith,
      product_of_gaps x.plus x.minus y.plus y.minus (omega (arith, (≼_cross nought x).0 h))
          (omega (arith, (≼_cross nought y).0 k)),
    ))

-- The two sides of `n / e <= c` and of `n <= c * e`, for e = (d + 1) / (ke + 1).
clear_denominator :
    (pn mn kn pc mc kc me d ke : ℕ)
    → (pn * suc ke + mn * 0) * suc kc + mc * suc (kn * d + kn + d)
      ≤ pc * suc (kn * d + kn + d) + (pn * 0 + mn * suc ke) * suc kc
    → pn * suc (kc * ke + kc + ke) + (pc * me + mc * (me + suc d)) * suc kn
      ≤ (pc * (me + suc d) + mc * me) * suc kn + mn * suc (kc * ke + kc + ke)
clear_denominator pn mn kn pc mc kc me d ke h = omega arith

inverse_pos :
    (e : Decimal)
    → e.minus < e.plus
    → inverse e ≡ record { plus = suc e.less; minus = 0; less = e.plus - e.minus - 1 }
unfolding inverse
inverse_pos e h = rw ((ltb_iff e.minus e.plus).1 h)

pub minus-lt-plus : (e : Decimal) → nought ≺ e → e.minus < e.plus
minus-lt-plus e h = omega (arith, (≺_cross nought e).0 h)

cross_quotient :
    (n e c : Decimal)
    → e.minus < e.plus
    → n ⊘ e ≼ c
    → let d = e.plus - e.minus - 1 in
      (n.plus * suc e.less + n.minus * 0) * suc c.less + c.minus * suc (n.less * d + n.less + d)
      ≤ c.plus * suc (n.less * d + n.less + d) + (n.plus * 0 + n.minus * suc e.less) * suc c.less
unfolding ◌⊗◌
cross_quotient n e c h k = (≼_cross _ c).0 (rw (inverse_pos e h) at k)

-- `n / e <= c` with e > 0 gives `n <= c * e`.
pub ≼-⊘ : (n e c : Decimal) → nought ≺ e → n ⊘ e ≼ c → n ≼ c ⊗ e
unfolding ◌⊗◌
≼-⊘ n e c pos h = (≼_cross n (c ⊗ e)).1 (
    subst
      (λ p.
        n.plus * suc (c.less * e.less + c.less + e.less)
          + (c.plus * e.minus + c.minus * p) * suc n.less
        ≤ (c.plus * p + c.minus * e.minus) * suc n.less
          + n.minus * suc (c.less * e.less + c.less + e.less))
      (let below = minus-lt-plus e pos in omega arith)
      (clear_denominator n.plus n.minus n.less c.plus c.minus c.less e.minus (e.plus - e.minus - 1)
        e.less (cross_quotient n e c (minus-lt-plus e pos) h)))

-- Scaling by a number that is not negative keeps the order.
pub ⊗_mono_right : (x y z : Decimal) → nought ≼ z → x ≼ y → x ⊗ z ≼ y ⊗ z
unfolding ◌⊗◌
⊗_mono_right x y z hz h = (≼_cross (x ⊗ z) (y ⊗ z)).1 (
    omega (
      arith,
      mul-le-mul_right (suc z.less) (
          product_of_gaps (cross y x) (cross x y) z.plus z.minus ((≼_cross x y).0 h)
            (omega (arith, (≼_cross nought z).0 hz))),
    ))

-- The sign of a number and of its opposite.
pub opposite_sign : (a : Decimal) → (nought ≺ opposite a) ↔ (a ≺ nought)
unfolding ◌<?◌
opposite_sign a = ground arith

-- y < z + x gives y - x < z, and the other way round.
pub ≺-⊖ : (y z x : Decimal) → y ≺ x ⊕ z → y ⊖ x ≺ z
unfolding ◌⊕◌
≺-⊖ y z x h = (≺_cross (y ⊖ x) z).1 (omega (arith, (≺_cross y (x ⊕ z)).0 h))

cancelled :
    (pn mn kn me d ke : ℕ)
    → let p = pn * suc ke + mn * 0 in
      let m = pn * 0 + mn * suc ke in
      let l = kn * d + kn + d in
      (p * (me + suc d) + m * me) * suc kn + mn * suc (l * ke + l + ke)
      ≤ pn * suc (l * ke + l + ke) + (p * me + m * (me + suc d)) * suc kn
cancelled pn mn kn me d ke = omega arith

-- (n / e) * e is at most n.
pub ⊘_cancel : (n e : Decimal) → nought ≺ e → n ⊘ e ⊗ e ≼ n
unfolding ◌⊗◌
⊘_cancel n e pos = (≼_cross (n ⊘ e ⊗ e) n).1 (
    rw (inverse_pos e (minus-lt-plus e pos)) (
      let d = e.plus - e.minus - 1 in
      subst
        (λ q.
          let p = n.plus * suc e.less + n.minus * 0 in
          let m = n.plus * 0 + n.minus * suc e.less in
          let l = n.less * d + n.less + d in
          (p * q + m * e.minus) * suc n.less + n.minus * suc (l * e.less + l + e.less)
          ≤ n.plus * suc (l * e.less + l + e.less) + (p * e.minus + m * q) * suc n.less)
        (let below = minus-lt-plus e pos in omega arith)
        (cancelled n.plus n.minus n.less e.minus d e.less)))
