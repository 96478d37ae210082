-- ===== src/Common/Options.antt =====
-- `Option.map` under its own name, and its laws.
use mathlib.Core.Option.{Option, none, some}

abbrev pub map_some {ℓ κ} : {A : Type ℓ} {B : Type κ} → (A → B) → Option A → Option B
map_some f none = none
map_some f (some a) = some (f a)
