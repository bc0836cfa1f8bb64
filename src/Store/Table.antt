-- ===== src/Store/Table.antt =====
-- `HashMap`, as a list of its entries. The store never iterates over one, so their order is free.
use lens.Prelude.{Bool, true, false, List, [], ◌∷◌, Option, none, some}

module _ {ℓ κ} {K : Type ℓ} {V : Type κ} where
  -- `get`: the test says which key is looked up.
  abbrev pub get : (K → Bool) → List (K × V) → Option V
  get is_key [] = none
  get is_key ((k, v) ∷ entries) = elim (is_key k) [ true ↦ some v | false ↦ get is_key entries ]

  -- `retain` of the keys that fail the test, so `remove` when it accepts one key
  abbrev pub remove : (K → Bool) → List (K × V) → List (K × V)
  remove is_key [] = []
  remove is_key ((k, v) ∷ entries) =
      let rest = remove is_key entries in elim (is_key k) [ true ↦ rest | false ↦ (k, v) ∷ rest ]

  -- `insert`, with a test that accepts the key
  abbrev pub insert : (K → Bool) → K → V → List (K × V) → List (K × V)
  insert is_key k v entries = (k, v) ∷ remove is_key entries
