-- ===== src/Dict/Order.antt =====
-- The order of `sorted`, on which `sorted(set(xs))` has no key twice.
use Prim.Native.Nat.{Ordering, compare as compare_ℕ}
use Prim.Native.Char.{Char, code}
use Prim.Native.String.compare
use Prim.Native.String.{[], ◌∷◌, compare, then}
use text.Mathlib.Text.{is_lt, is_eq}
use mathlib.Core.Bool.{false≢true}
use hta.Common.{
  ℕ, String, ◌≡◌, refl, sym, ap, ◌∙◌, ◌&&◌, ◌||◌, true, false, arith, ltb, ◌==◌, same, same_iff,
}
use hta.Dict.{Key, string_key}

pub record IsStrict (K : Type 0) ⦃key : Key K⦄ : Type 0 where
  pub irreflexive : (a : K) → key.less a a ≡ false
  pub transitive : (a b c : K) → key.less a b ≡ true → key.less b c ≡ true → key.less a c ≡ true
  pub connected : (a b : K) → key.beq a b ≡ false → key.less a b ≡ false → key.less b a ≡ true

is_lt-then :
    (m n : ℕ) (o : Ordering) → is_lt (then (compare_ℕ m n) o) ≡ (ltb m n || (m == n) && is_lt o)
is_lt-then m n o = ground arith

is_lt-cons :
    (c d : Char) (s t : String)
    → is_lt (compare (c ∷ s) (d ∷ t))
      ≡ (ltb (code c) (code d) || (code c == code d) && is_lt (compare s t))
is_lt-cons c d s t =
    ap is_lt (compare.cons-cons c d s t) ∙ is_lt-then (code c) (code d) (compare s t)

irreflexive_text : (s : String) → is_lt (compare s s) ≡ false
irreflexive_text [] = ap is_lt compare.nil-nil
irreflexive_text (c ∷ s) = ground (arith, is_lt-cons c c s s, irreflexive_text s)

is_eq-then : (m n : ℕ) (o : Ordering) → is_eq (then (compare_ℕ m n) o) ≡ ((m == n) && is_eq o)
is_eq-then m n o = ground arith

same-cons : (c d : Char) (s t : String) → same (c ∷ s) (d ∷ t) ≡ ((code c == code d) && same s t)
same-cons c d s t =
    ap is_eq (compare.cons-cons c d s t) ∙ is_eq-then (code c) (code d) (compare s t)

nothing_below : (s : String) → ¬ (is_lt (compare s []) ≡ true)
nothing_below [] h = false≢true (sym (ap is_lt compare.nil-nil) ∙ h)
nothing_below (c ∷ s) h = false≢true (sym (ap is_lt (compare.cons-nil c s)) ∙ h)

transitive_text :
    (s t u : String)
    → is_lt (compare s t) ≡ true
    → is_lt (compare t u) ≡ true
    → is_lt (compare s u) ≡ true
transitive_text [] t [] h k = absurd (nothing_below t k)
transitive_text [] t (e ∷ u) h k = ap is_lt (compare.nil-cons e u)
transitive_text (c ∷ s) [] u h k = absurd (nothing_below (c ∷ s) h)
transitive_text (c ∷ s) (d ∷ t) [] h k = absurd (nothing_below (d ∷ t) k)
transitive_text (c ∷ s) (d ∷ t) (e ∷ u) h k =
    ground
      (arith, is_lt-cons c d s t, is_lt-cons d e t u, is_lt-cons c e s u, transitive_text s t u)

connected_text :
    (s t : String) → same s t ≡ false → is_lt (compare s t) ≡ false → is_lt (compare t s) ≡ true
connected_text [] [] h k = absurd (false≢true (sym h ∙ (same_iff [] []).1 refl))
connected_text [] (d ∷ t) h k = absurd (false≢true (sym k ∙ ap is_lt (compare.nil-cons d t)))
connected_text (c ∷ s) [] h k = ap is_lt (compare.nil-cons c s)
connected_text (c ∷ s) (d ∷ t) h k =
    ground (arith, same-cons c d s t, is_lt-cons c d s t, is_lt-cons d c t s, connected_text s t)

instance pub string_order : IsStrict String
string_order = record {
  irreflexive = irreflexive_text;
  transitive = transitive_text;
  connected = connected_text;
}
