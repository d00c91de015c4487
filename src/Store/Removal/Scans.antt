-- ===== src/Store/Removal/Scans.antt =====
-- What a scan finds inside an `Update`, and what is left after its keys are deleted.
use alborz.Prelude.{
  Bool, true, false, ◌&&◌, ◌||◌, List, [], ◌∷◌, ◌++◌, Option, none, some, ok, ◌≡◌, refl, inl, inr,
  arith, if◌then◌else◌, Result-cases,
}
use alborz.Store.Keys.{Key, key_eq, key_eq_iff}
use alborz.Store.Stored.{Stored, collection_codec, share_codec, dropped_codec}
use alborz.Store.Rows.{Rows, lookup, remove, lookup-remove}
use alborz.Store.Env.{Env}
use alborz.Store.Tx.{Tx, opened, delete, scan, scan_rows}
use alborz.Store.Removal.{delete_keys, keys_of}

abbrev pub has_key : Key → List Key → Bool
has_key k [] = false
has_key k (j ∷ keys) = key_eq j k || has_key k keys

abbrev pub is_there : Option Stored → Bool
is_there none = false
is_there (some v) = true

pub has_key-append :
    (k : Key) (js ks : List Key) → has_key k (js ++ ks) ≡ (has_key k js || has_key k ks)
has_key-append k [] ks = refl
has_key-append k (j ∷ js) ks = ground (arith, has_key-append k js ks)

module _ ⦃env : Env⦄ where
  -- A scan inside an `Update` finds every record of its prefix, and nothing else.
  pub scan_rows-has_key :
      (under : Key → Bool) (t : Tx) (rows : Rows) (k : Key) {found : List (Key × Stored)}
      → t.writing ≡ true
      → scan_rows under t rows ≡ ok found
      → has_key k (keys_of found) ≡ (under k && is_there (lookup k rows))
  unfolding scan_rows opened lookup
  scan_rows-has_key under t [] k w h = ground arith
  scan_rows-has_key under t ((j, v) ∷ rows) k {found} w h =
      elim (Result-cases (scan_rows under t rows)) [
        | inl (e, p) ↦ ground (arith, p, w)
        | inr (rest, p) ↦ ground (arith, p, w, scan_rows-has_key under t rows k w p, key_eq_iff j k)
      ]

  pub scan-ok :
      (under : Key → Bool) (t : Tx) {found : List (Key × Stored)} {u : Tx}
      → scan under t ≡ ok (found, u)
      → (u ≡ t) × (scan_rows under t t.rows ≡ ok found)
  unfolding scan
  scan-ok under t h = elim (Result-cases (scan_rows under t t.rows)) [
    | inl (e, p) ↦ absurd (ground (arith, p))
    | inr (found, p) ↦ ground (arith, p)
  ]

  pub lookup-delete_keys :
      (keys : List Key) (t : Tx) (k : Key) {u : Tx}
      → delete_keys keys t ≡ ok (tt, u)
      → lookup k u.rows ≡ (if has_key k keys then none else lookup k t.rows)
  unfolding delete_keys delete
  lookup-delete_keys [] t k h = ground arith
  lookup-delete_keys (j ∷ keys) t k {u} h =
      let rest : lookup k u.rows ≡ (if has_key k keys then none else lookup k (remove j t.rows)) =
        lookup-delete_keys keys (record t { rows = remove j t.rows }) k h in
      ground (arith, rest, lookup-remove j k t.rows)
