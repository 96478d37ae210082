-- ===== src/Strings.antt =====
-- Python's operations on strings that the code needs beyond comparison. Case and white space are those of ASCII.
use Prim.Native.Char.{Char, code}
use Prim.Native.String.append
use Prim.Native.String.{String, [], ◌∷◌, ◌++◌, char_at, count, find, len}
use package.text.Mathlib.TextEquality.{Char-path}
use mathlib.Core.Option.{some_inj}
use hta.Common.{
  ℕ, zero, suc, ap₂, sym, ◌∙◌, ◌-◌, ◌≡◌, ap, Bool, true, false, ◌&&◌, ◌||◌, Option, none, some,
  arith, leb, ◌==◌, ==_iff, if◌then◌else◌, Bool-cases, inl, inr,
}

-- What follows a prefix: `text.startswith(p)` and `text[len(p):]`.
unfoldable pub after_prefix : String → String → Option String
after_prefix [] s = some s
after_prefix (c ∷ p) [] = none
after_prefix (c ∷ p) (d ∷ s) =
    let rest = after_prefix p s in if code c == code d then rest else none

pub after_prefix-append : (p s : String) → after_prefix p (p ++ s) ≡ some s
unfolding after_prefix
after_prefix-append [] s = ap (λ t. some t) (append.nil s)
after_prefix-append (c ∷ p) s =
    ap (after_prefix (c ∷ p)) (append.cons c p s)
    ∙ ground (arith, after_prefix-append p s, ==_iff (code c) (code c))

pub append-after_prefix : (p t s : String) → after_prefix p t ≡ some s → t ≡ p ++ s
unfolding after_prefix
append-after_prefix [] t s h = some_inj.0 h ∙ sym (append.nil s)
append-after_prefix (c ∷ p) [] s h = absurd (ground (arith, h))
append-after_prefix (c ∷ p) (d ∷ t) s h = elim (Bool-cases (code c == code d)) [
  | inl e ↦
      ap₂ (λ x y. x ∷ y) (sym (Char-path c d ((==_iff (code c) (code d)).0 e)))
        (append-after_prefix p t s (rw (e, after_prefix) at h))
      ∙ sym (append.cons c p s)
  | inr e ↦ absurd (ground (arith, rw (e, after_prefix) at h))
]

-- `str.lower`
abbrev lower_char : Char → Char
lower_char c =
    if leb 65 (code c) && leb (code c) 90
    then char_at "abcdefghijklmnopqrstuvwxyz" (code c - 65)
    else c

unfoldable pub lower : String → String
lower [] = []
lower (c ∷ s) = lower_char c ∷ lower s

-- `c.isspace()`
abbrev is_space : Char → Bool
is_space c =
    (code c == 32) || (leb 9 (code c) && leb (code c) 13) || (leb 28 (code c) && leb (code c) 31)

unfoldable pub left_strip : String → String
left_strip [] = []
left_strip (c ∷ s) = let rest = left_strip s in if is_space c then rest else c ∷ s

abbrev strip_char : Char → String → String
strip_char c [] = if is_space c then [] else c ∷ []
strip_char c (d ∷ s) = c ∷ d ∷ s

unfoldable pub right_strip : String → String
right_strip [] = []
right_strip (c ∷ s) = strip_char c (right_strip s)

-- `str.strip`
unfoldable pub strip : String → String
unfolding left_strip right_strip
strip s = left_strip (right_strip s)

-- The first word of a stripped text, and what follows it: `text.split(maxsplit=1)`.
unfoldable pub first_word : String → String
first_word [] = []
first_word (c ∷ s) = let rest = first_word s in if is_space c then [] else c ∷ rest

unfoldable pub after_word : String → String
unfolding left_strip
after_word [] = []
after_word (c ∷ s) = let rest = after_word s in if is_space c then left_strip (c ∷ s) else rest

-- `part in text`
unfoldable pub contains_text : String → String → Bool
contains_text part text = leb (find text part) (len text)

-- `if not text`
unfoldable pub is_empty_text : String → Bool
is_empty_text [] = true
is_empty_text (c ∷ s) = false

-- `s.replace(p, "")`, for a `p` that is not empty; the first argument counts what is left of an occurrence.
unfoldable pub removed_from : ℕ → String → String → String
unfolding after_prefix
removed_from skipped p [] = []
removed_from zero p (c ∷ s) =
    let kept = c ∷ removed_from 0 p s in
    let dropped = removed_from (count p - 1) p s in
    elim (after_prefix p (c ∷ s)) [ none ↦ kept | some _ ↦ dropped ]
removed_from (suc skipped) p (c ∷ s) = removed_from skipped p s

abbrev pub removed : String → String → String
unfolding removed_from
removed p s = removed_from 0 p s
