-- ===== src/Store/Rows.antt =====
-- The data file's records as one list of keys and values; a key stands there once.
use alborz.Prelude.{List, [], ◌∷◌, Option, none, some, ◌≡◌, refl, arith, if◌then◌else◌}
use alborz.Store.Keys.{Key, key_eq, key_eq_iff}
use alborz.Store.Stored.{Stored}

abbrev pub Rows : Type 0
Rows = List (Key × Stored)

unfoldable pub lookup : Key → Rows → Option Stored
lookup k [] = none
lookup k ((j, v) ∷ rows) = if key_eq j k then some v else lookup k rows

unfoldable pub insert : Key → Stored → Rows → Rows
insert k v [] = (k, v) ∷ []
insert k v ((j, w) ∷ rows) = if key_eq j k then (k, v) ∷ rows else (j, w) ∷ insert k v rows

unfoldable pub remove : Key → Rows → Rows
remove k [] = []
remove k ((j, v) ∷ rows) = let rest = remove k rows in if key_eq j k then rest else (j, v) ∷ rest

pub lookup-insert :
    (k j : Key) (v : Stored) (rows : Rows)
    → lookup j (insert k v rows) ≡ (if key_eq k j then some v else lookup j rows)
unfolding lookup insert
lookup-insert k j v [] = refl
lookup-insert k j v ((i, w) ∷ rows) = ground (
  arith,
  key_eq_iff k j,
  key_eq_iff i k,
  key_eq_iff i j,
  key_eq_iff j j,
  lookup-insert k j v rows,
)

pub lookup-remove :
    (k j : Key) (rows : Rows)
    → lookup j (remove k rows) ≡ (if key_eq k j then none else lookup j rows)
unfolding lookup remove
lookup-remove k j [] = ground arith
lookup-remove k j ((i, w) ∷ rows) =
    ground (
      arith,
      key_eq_iff k j,
      key_eq_iff i k,
      key_eq_iff i j,
      key_eq_iff j j,
      lookup-remove k j rows,
    )
