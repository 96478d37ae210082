-- ===== src/Formatted.antt =====
-- A text that an f-string builds, as its pieces: the numbers that it shows stay values.
use hta.Common.{ℕ, String, List, [], ◌∷◌}
use hta.Decimal.{Decimal}

pub data Piece : Type 0 where
  lit : String → Piece
  int : ℕ → Piece
  dec : Decimal → Piece
  -- `{x:.3f}` shows three digits after the point.
  fixed : ℕ → Decimal → Piece
  -- `{x:,.2f}` groups the digits before the point, too.
  grouped : ℕ → Decimal → Piece
  -- `{int(x)}` drops the fraction.
  truncated : Decimal → Piece

abbrev pub Text : Type 0
Text = List Piece

abbrev pub plain : String → Text
plain s = lit s ∷ []
