-- ===== src/Decimal/Sums.antt =====
-- Sums of exact numbers: the fields of a sum are polynomials, so the laws hold on the nose.
use hta.Common.{ℕ, ◌≡◌, refl, sym, ap, ap₂, ◌∙◌, arith}
use hta.Decimal.{Decimal, nought, opposite, ◌⊕◌, ◌⊖◌}

-- Numbers with equal fields are equal.
same_fields :
    {p q m n k l : ℕ}
    → p ≡ q
    → m ≡ n
    → k ≡ l
    → Path Decimal
        (record { plus = p; minus = m; less = k })
        (record { plus = q; minus = n; less = l })
same_fields hp hm hk = cc

pub ⊕_assoc : (a b c : Decimal) → a ⊕ b ⊕ c ≡ a ⊕ (b ⊕ c)
unfolding ◌⊕◌
⊕_assoc a b c = same_fields (omega arith) (omega arith) (omega arith)

pub ⊕-nought : (a : Decimal) → a ⊕ nought ≡ a
unfolding ◌⊕◌
⊕-nought a = same_fields (omega arith) (omega arith) (omega arith)

pub nought-⊕ : (a : Decimal) → nought ⊕ a ≡ a
unfolding ◌⊕◌
nought-⊕ a = same_fields (omega arith) (omega arith) (omega arith)

pub ⊕_swap : (a b c d : Decimal) → a ⊕ b ⊕ (c ⊕ d) ≡ a ⊕ c ⊕ (b ⊕ d)
unfolding ◌⊕◌
⊕_swap a b c d = same_fields (omega arith) (omega arith) (omega arith)

opposite-⊕ : (a b : Decimal) → opposite (a ⊕ b) ≡ opposite a ⊕ opposite b
unfolding ◌⊕◌
opposite-⊕ a b = refl

-- (p - q - r) + (x - y - z) = (p + x) - (q + y) - (r + z)
pub ⊕-⊖_swap : (p q r x y z : Decimal) → p ⊖ q ⊖ r ⊕ (x ⊖ y ⊖ z) ≡ (p ⊕ x) ⊖ (q ⊕ y) ⊖ (r ⊕ z)
⊕-⊖_swap p q r x y z =
    ⊕_swap (p ⊖ q) (opposite r) (x ⊖ y) (opposite z)
    ∙ ap₂ (λ s t. s ⊕ t)
        (⊕_swap p (opposite q) x (opposite y) ∙ ap (λ s. p ⊕ x ⊕ s) (sym (opposite-⊕ q y)))
        (sym (opposite-⊕ r z))

pub ⊕_right_comm : (a b c : Decimal) → a ⊕ b ⊕ c ≡ a ⊕ c ⊕ b
unfolding ◌⊕◌
⊕_right_comm a b c = same_fields (omega arith) (omega arith) (omega arith)

pub ⊕_left_comm : (a b c : Decimal) → a ⊕ (b ⊕ c) ≡ b ⊕ (a ⊕ c)
unfolding ◌⊕◌
⊕_left_comm a b c = same_fields (omega arith) (omega arith) (omega arith)
