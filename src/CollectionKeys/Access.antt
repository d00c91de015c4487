-- ===== src/CollectionKeys/Access.antt =====
-- The transaction that pim/store/sealed.go gives: reads and writes that open and seal, and what a read
-- that does not open makes of the whole.
use alborz.Prelude.{
  ℕ, String, Bool, true, false, not, ◌&&◌, List, [], ◌∷◌, Option, none, some, Result, ok, err, ◌==◌,
  if◌then◌else◌,
}
use alborz.Seal.{Crypto, SealKey, Sealed, by_account, format_of, seal}
use alborz.Keyring.{is_some}
use alborz.CollectionKeys.{
  KeysError, key_locked, ValueKey, same_key, CollectionKey, KeysTx, M, is_locked, collection,
  open_value,
}
use alborz.CollectionKeys.Ops.{put_value}

-- `scopeOf`: "" where a key lies in no scope.
abbrev pub scope_of : ValueKey → String
scope_of k = elim k.scope [ none ↦ "" | some scope ↦ scope ]

abbrev is_key_locked : KeysError → Bool
is_key_locked key_locked = true
is_key_locked _ = false

module _ ⦃crypto : Crypto⦄ where
  -- `Get` and `Delete` of the data file.
  unfoldable pub find_value : ValueKey → List (ValueKey × Sealed) → Option Sealed
  find_value k [] = none
  find_value k ((j, s) ∷ rows) = if same_key j k then some s else find_value k rows

  unfoldable pub drop_value : ValueKey → List (ValueKey × Sealed) → List (ValueKey × Sealed)
  drop_value k [] = []
  drop_value k ((j, s) ∷ rows) =
      let rest = drop_value k rows in if same_key j k then rest else (j, s) ∷ rest

  -- `passed`.
  abbrev pub passed : KeysTx → KeysError → Bool
  passed t e = not t.write && is_key_locked e

  abbrev pub note_failure : KeysError → KeysTx → KeysTx
  note_failure e t = record t {
    failed = if not (passed t e) && not (is_some t.failed) then some e else t.failed;
  }

  abbrev pub looked_at : Result KeysError (CollectionKey × KeysTx) → KeysTx → KeysTx
  looked_at (ok (c, u)) t = u
  looked_at (err e) t = t

  module _ (size : String → ℕ) where
    -- What a value that does not open leaves: the map has the collection's key, where that was asked.
    abbrev pub tried : String → Sealed → KeysTx → KeysTx
    tried scope s t =
        let u = looked_at (collection size scope t) t in if format_of s == by_account then u else t

    -- `Get`.
    unfoldable pub get : ValueKey → KeysTx → Option String × KeysTx
    unfolding find_value open_value collection
    get k t = elim (find_value k t.values) [
      | none ↦ (none, t)
      | some s ↦ elim (open_value size (scope_of k) s t) [
        | ok (plain, u) ↦ (some plain, u)
        | err e ↦ (none, note_failure e (tried (scope_of k) s t))
      ]
    ]

    abbrev and_value :
        ValueKey
        → String
        → (List (ValueKey × String) × Option KeysError) × KeysTx
        → (List (ValueKey × String) × Option KeysError) × KeysTx
    and_value k plain ((found, e), u) = (((k, plain) ∷ found, e), u)

    unfoldable pub scan_rows :
        (ValueKey → Bool)
        → List (ValueKey × Sealed)
        → KeysTx
        → (List (ValueKey × String) × Option KeysError) × KeysTx
    unfolding open_value collection
    scan_rows under [] t = (([], none), t)
    scan_rows under ((k, s) ∷ rows) t = elim (under k) [
      | false ↦ scan_rows under rows t
      | true ↦ elim (open_value size (scope_of k) s t) [
        | ok (plain, u) ↦ and_value k plain (scan_rows under rows u)
        | err e ↦ elim (passed t e) [
          | true ↦ scan_rows under rows (tried (scope_of k) s t)
          | false ↦ (([], some e), tried (scope_of k) s t)
        ]
      ]
    ]

    -- `Scan`: what its callback is given, in order, and the error that ends it; `under` is whether a key
    -- has the prefix. The error is not noted: it goes to the caller alone.
    unfoldable pub scan :
        (ValueKey → Bool) → KeysTx → (List (ValueKey × String) × Option KeysError) × KeysTx
    unfolding scan_rows
    scan under t = scan_rows under t.values t

    abbrev pub own_or_instance : KeysTx → CollectionKey → SealKey
    own_or_instance t c = elim c.key [ some key ↦ key | none ↦ t.instance_key ]

    -- `sealer`.
    unfoldable pub sealer : ValueKey → M SealKey
    unfolding collection
    sealer k t = elim k.scope [
      | none ↦ ok (t.instance_key, t)
      | some scope ↦ elim (collection size scope t) [
        | err e ↦ err e
        | ok (c, u) ↦ if is_locked c then err key_locked else ok (own_or_instance u c, u)
      ]
    ]

    -- `Put`: the error, and the state.
    unfoldable pub put : ValueKey → String → KeysTx → Option KeysError × KeysTx
    unfolding sealer put_value seal
    put k plain t = elim (sealer k t) [
      | err e ↦ (some e, looked_at (collection size (scope_of k) t) t)
      | ok (key, u) ↦ (none, record u { values = put_value k (seal key plain) u.values })
    ]

    -- `Delete`.
    unfoldable pub delete : ValueKey → KeysTx → KeysTx
    unfolding drop_value
    delete k t = record t { values = drop_value k t.values }

  -- What a caller does in a transaction: each step may depend on what the ones before answered. The
  -- callback of a scan collects what it is given.
  pub data Body : Type 0 where
    finish : Option KeysError → Body
    get_then : ValueKey → (Option String → Body) → Body
    scan_then : (ValueKey → Bool) → (List (ValueKey × String) × Option KeysError → Body) → Body
    put_then : ValueKey → String → (Option KeysError → Body) → Body
    delete_then : ValueKey → Body → Body

  -- `run` begins without a key at hand.
  abbrev pub begin : Bool → KeysTx → KeysTx
  begin write t = record t { held = λ scope. none; write = write; failed = none }

  abbrev pub or_error : Option KeysError → Option KeysError → Option KeysError
  or_error (some e) o = some e
  or_error none o = o

  abbrev committed : Option KeysError → KeysTx → KeysTx → KeysTx
  committed none u t = u
  committed (some e) u t = t

  module _ (size : String → ℕ) where
    unfoldable pub run_body : Body → KeysTx → Option KeysError × KeysTx
    unfolding get scan put delete
    run_body (finish e) t = (e, t)
    run_body (get_then k rest) t = let (found, u) = get size k t in run_body (rest found) u
    run_body (scan_then under rest) t =
        let (found, u) = scan size under t in run_body (rest found) u
    run_body (put_then k plain rest) t = let (e, u) = put size k plain t in run_body (rest e) u
    run_body (delete_then k rest) t = run_body rest (delete size k t)

    -- `Update`, with `run`: the data file keeps what was written only where no error came.
    unfoldable pub update : Body → KeysTx → Option KeysError × KeysTx
    unfolding run_body
    update body t =
        let (e, u) = run_body body (begin true t) in
        let end = or_error u.failed e in (end, committed end u t)
