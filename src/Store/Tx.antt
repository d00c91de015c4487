-- ===== src/Store/Tx.antt =====
-- One transaction: the reads, writes and scans of store.go's `get`, `put` and `each`, over the
-- transaction of sealed.go. A value that does not open ends an `Update` at once here; in sealed.go
-- it is remembered, and ends it when the function returns: either way nothing is written.
pub mod Laws
use alborz.Prelude.{
  ℕ, String, Bool, true, false, not, ◌&&◌, List, [], ◌∷◌, ◌++◌, Option, none, some, Result, ok, err,
  if◌then◌else◌,
}
use alborz.Store.Types.{SealError, locked, cannot_open, StoreError, not_found, bad_json, sealed}
use alborz.Store.Keys.{Key}
use alborz.Store.Stored.{Stored, Codec}
use alborz.Store.Rows.{Rows, lookup, insert, remove}
use alborz.Store.Env.{Env, Scope}

module _ ⦃env : Env⦄ where
  pub record Tx : Type 0 where
    pub rows : Rows
    pub held : env.Held
    -- `write` of sealed.go: the transaction is an `Update`.
    pub writing : Bool

  abbrev pub M : Type 0 → Type 0
  M A = Tx → Result StoreError (A × Tx)

  abbrev pub pure : {A : Type 0} → A → M A
  pure a t = ok (a, t)

  abbrev pub fail : {A : Type 0} → StoreError → M A
  fail e t = err e

  infixl 5 ◌>>=◌ ◌>>◌
  abbrev pub ◌>>=◌ : {A B : Type 0} → M A → (A → M B) → M B
  ◌>>=◌ m f t = elim (m t) [ err e ↦ err e | ok (a, u) ↦ f a u ]

  abbrev pub ◌>>◌ : {A B : Type 0} → M A → M B → M B
  m >> n = m >>= λ _. n

  abbrev pub or_seal : {A : Type 0} → Result SealError A → Result StoreError A
  or_seal (ok a) = ok a
  or_seal (err e) = err (sealed e)

  -- `passed`: a read goes on without a value whose key is not at hand.
  abbrev pub passed : Bool → SealError → Bool
  passed writing locked = not writing
  passed writing cannot_open = false

  unfoldable pub opened : Tx → Key → Stored → Result StoreError (Option Stored)
  opened t k v = elim (env.opens t.held k) [
    | none ↦ ok (some v)
    | some e ↦ if passed t.writing e then ok none else err (sealed e)
  ]

  -- `sealedTx.Get`.
  unfoldable pub get_raw : Key → M (Option Stored)
  unfolding opened
  get_raw k t = elim (lookup k t.rows) [
    | none ↦ ok (none, t)
    | some v ↦ elim (opened t k v) [ err e ↦ err e | ok o ↦ ok (o, t) ]
  ]

  -- `sealedTx.Put`.
  unfoldable pub put_raw : Key → Stored → M (Unit {0})
  put_raw k v t = elim (env.seals t.held k) [
    | none ↦ ok (tt, record t { rows = insert k v t.rows })
    | some e ↦ err (sealed e)
  ]

  unfoldable pub delete : Key → M (Unit {0})
  delete k t = ok (tt, record t { rows = remove k t.rows })

  -- `sealedTx.Scan` of the keys that a prefix names, `each` without its function.
  unfoldable pub scan_rows : (Key → Bool) → Tx → Rows → Result StoreError (List (Key × Stored))
  unfolding opened
  scan_rows under t [] = ok []
  scan_rows under t ((k, v) ∷ rows) =
      let rest = scan_rows under t rows in
      if under k
      then (elim (opened t k v) [
        | err e ↦ err e
        | ok none ↦ rest
        | ok (some s) ↦ elim rest [ err e ↦ err e | ok found ↦ ok ((k, s) ∷ found) ]
      ])
      else rest

  unfoldable pub scan : (Key → Bool) → M (List (Key × Stored))
  unfolding scan_rows
  scan under t = elim (scan_rows under t t.rows) [ err e ↦ err e | ok found ↦ ok (found, t) ]

  module _ {T : Type 0} ⦃codec : Codec T⦄ where
    abbrev decoded : Option Stored → Result StoreError (Option T)
    decoded none = ok none
    decoded (some s) = elim (codec.decode s) [ none ↦ err bad_json | some x ↦ ok (some x) ]

    -- `get[T]` where the caller goes on after `ErrNotFound`.
    unfoldable pub find : Key → M (Option T)
    unfolding get_raw
    find k t = elim (get_raw k t) [
      | err e ↦ err e
      | ok (o, u) ↦ elim (decoded o) [ err e ↦ err e | ok x ↦ ok (x, u) ]
    ]

    abbrev found : Option T → M T
    found none = fail not_found
    found (some x) = pure x

    -- `get[T]`.
    unfoldable pub get : Key → M T
    unfolding find
    get k = do o ← find k; found o

    -- `put`: what `record.Keep` carries over from the old value is no part of `T`.
    unfoldable pub put : Key → T → M (Unit {0})
    unfolding get_raw put_raw
    put k x = do get_raw k; put_raw k (codec.encode x)

    unfoldable pub decode_all : List (Key × Stored) → Result StoreError (List T)
    decode_all [] = ok []
    decode_all ((k, s) ∷ rest) = elim (codec.decode s) [
      | none ↦ err bad_json
      | some x ↦ elim (decode_all rest) [ err e ↦ err e | ok xs ↦ ok (x ∷ xs) ]
    ]

    -- `each[T]`, as the list of what it reads.
    unfoldable pub each : (Key → Bool) → M (List T)
    unfolding scan decode_all
    each under t = elim (scan under t) [
      | err e ↦ err e
      | ok (rows, u) ↦ elim (decode_all rows) [ err e ↦ err e | ok xs ↦ ok (xs, u) ]
    ]

  -- `keyed(tx)`'s operations.
  unfoldable pub on_keys : (env.Held → Result SealError env.Held) → M (Unit {0})
  on_keys change t = elim (or_seal (change t.held)) [
    | err e ↦ err e
    | ok h ↦ ok (tt, record t { held = h })
  ]

  unfoldable pub ring_on : String → M Bool
  ring_on name t = ok (env.ring_on t.held name, t)

  pub record Db : Type 0 where
    pub rows : Rows
    pub held : env.Held

  abbrev pub begin : Bool → Db → Tx
  begin writing db = record { rows = db.rows; held = env.afresh db.held; writing = writing }

  -- `sealed.Update`: what is written stays only if the function returns no error.
  unfoldable pub update : {A : Type 0} → M A → Db → Result StoreError A × Db
  update m db = elim (m (begin true db)) [
    | err e ↦ (err e, db)
    | ok (a, t) ↦ (ok a, record { rows = t.rows; held = t.held })
  ]

  -- `sealed.View`.
  unfoldable pub view : {A : Type 0} → M A → Db → Result StoreError A
  view m db = elim (m (begin false db)) [ err e ↦ err e | ok (a, t) ↦ ok a ]
