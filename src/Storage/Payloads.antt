-- ===== src/Storage/Payloads.antt =====
-- src/storage/journal.py: what `json.dumps(payload, default=str, sort_keys=True)` keeps of a payload. The
-- column of a row is the dictionary that `json.loads` reads from its text.
use package.text.Mathlib.TextPositions.{compare_refl}
use Prim.Native.String.{compare}
use package.text.Mathlib.Text.{is_lt}
use hta.Common.{
  String, map_some, ◌≡◌, refl, sym, ap, ◌∙◌, Bool, true, false, some, [], ◌∷◌, arith, same,
  same_iff, if◌then◌else◌,
}
use hta.Decimal.{Decimal}
use hta.Dict.{Dict, get, string_key}

pub data Json : Type 0 where
  null : Json
  boolean : Bool → Json
  number : Decimal → Json
  text : String → Json
  -- An object of Python that json does not know: `default=str` writes a Decimal as a string.
  decimal : Decimal → Json
  -- That string, which shows a number.
  shown : Decimal → Json
  -- A list or a dictionary inside, which no query looks into, by its text.
  nested : String → Json

abbrev pub Payload : Type 0
Payload = Dict String Json

unfoldable pub dump_value : Json → Json
dump_value null = null
dump_value (boolean b) = boolean b
dump_value (number x) = number x
dump_value (text s) = text s
dump_value (decimal x) = shown x
dump_value (shown x) = shown x
dump_value (nested s) = nested s

-- `sort_keys=True`: an entry moves behind the entries with a smaller key.
unfoldable pub insert_entry : String → Json → Payload → Payload
insert_entry k v [] = (k, v) ∷ []
insert_entry k v ((j, w) ∷ d) =
    let rest = insert_entry k v d in
    if is_lt (compare j k) then (j, w) ∷ rest else (k, v) ∷ (j, w) ∷ d

unfoldable pub dumps : Payload → Payload
unfolding dump_value insert_entry
dumps [] = []
dumps ((k, v) ∷ d) = insert_entry k (dump_value v) (dumps d)

same-not_less : (j k : String) → same j k ≡ true → is_lt (compare j k) ≡ false
same-not_less j k e = ap (λ o. is_lt o) (ap (compare j) (sym ((same_iff j k).0 e)) ∙ compare_refl j)

get-insert_entry :
    (i k : String) (v : Json) (d : Payload)
    → get i (insert_entry k v d) ≡ (if same k i then some v else get i d)
unfolding get insert_entry
get-insert_entry i k v [] = refl
get-insert_entry i k v ((j, w) ∷ d) =
    ground
      (arith, get-insert_entry i k v d, same-not_less j k, same_iff j i, same_iff k i, same_iff j k)

-- Reading a key of a written payload gives what was under it, a Decimal as its string.
pub get-dumps : (i : String) (d : Payload) → get i (dumps d) ≡ map_some dump_value (get i d)
unfolding get dumps
get-dumps i [] = refl
get-dumps i ((k, v) ∷ d) =
    ground (arith, get-insert_entry i k (dump_value v) (dumps d), get-dumps i d)
