-- ===== src/CollectionKeys.antt =====
-- The keys of collections in pim/store/sealed.go: a collection whose owner's encryption is on has a
-- key of its own, wrapped to each account that may read it.
pub mod Ops
pub mod Tests
pub mod Values
pub mod Resealed
pub mod Wraps
pub mod Access
pub mod Kept
pub mod Reads
pub mod ReadBack
pub mod Rekey
pub mod Holders
pub mod Decrypt
use text.Mathlib.Text.{◌==◌ as text_eq}
use Prim.Native.String.{◌++◌ as ◌<>◌}
use alborz.Prelude.{
  ℕ, String, Bool, true, false, not, ◌&&◌, ◌||◌, List, [], ◌∷◌, ◌++◌, Option, none, some, Result,
  ok, err, ◌==◌, if◌then◌else◌,
}
use alborz.Seal.{
  Crypto, SealError, SealKey, Sealed, by_account, format_of, seal, open_sealed, new_account_key,
}
use alborz.Keyring.{Wrap, Ring, is_some}
use alborz.Keyring.Ops.{wrap, unwrap, id}

pub data KeysError : Type 0 where
  key_locked bad_key_record : KeysError
  not_opened : SealError → KeysError

-- A key of the data file: the scope that `scopeOf` reads from it, if any, and the rest.
pub record ValueKey : Type 0 where
  pub scope : Option String
  pub name : String

abbrev pub same_scope : Option String → Option String → Bool
same_scope none none = true
same_scope (some a) (some b) = text_eq a b
same_scope _ _ = false

abbrev pub same_key : ValueKey → ValueKey → Bool
same_key a b = same_scope a.scope b.scope && text_eq a.name b.name

-- The key lies in the scope, under one of `prefixesOf`.
abbrev pub in_scope : String → ValueKey → Bool
in_scope scope k = same_scope k.scope (some scope)

-- `info`.
abbrev pub wrap_info : String → String
wrap_info scope = "alborz.pim collection key " <> scope

-- `seal.KeySize`.
abbrev pub key_size : ℕ
key_size = 32

module _ ⦃crypto : Crypto⦄ where
  -- `keyRecord`; its map of wraps by account is a list.
  pub record KeyRecord : Type 0 where
    pub wraps : List (String × Wrap)
    pub public : Option Sealed

  -- What stands under `keyKey`: a record, or bytes that the instance's key or encoding/json refuses.
  pub data StoredRecord : Type 0 where
    key_record : KeyRecord → StoredRecord
    unreadable : StoredRecord

  -- `collectionKey`.
  pub record CollectionKey : Type 0 where
    pub rec : Option KeyRecord
    pub secret : String
    pub key : Option SealKey

  abbrev pub no_key : CollectionKey
  no_key = record { rec = none; secret = ""; key = none }

  -- `sealedTx`, over the data file's values and records of keys, which stand each under one key.
  pub record KeysTx : Type 0 where
    pub instance_key : SealKey
    pub ring : Ring
    pub now : ℕ
    pub values : List (ValueKey × Sealed)
    pub records : String → Option StoredRecord
    pub held : String → Option CollectionKey
    pub write : Bool
    pub failed : Option KeysError

  -- `locked`.
  abbrev pub is_locked : CollectionKey → Bool
  is_locked c = is_some c.rec && not (is_some c.key)

  abbrev pub M : Type 0 → Type 0
  M A = KeysTx → Result KeysError (A × KeysTx)

  abbrev pub pure : {A : Type 0} → A → M A
  pure a t = ok (a, t)

  abbrev pub fail : {A : Type 0} → KeysError → M A
  fail e t = err e

  infixl 5 ◌>>=◌ ◌>>◌
  abbrev pub ◌>>=◌ : {A B : Type 0} → M A → (A → M B) → M B
  ◌>>=◌ m f t = elim (m t) [ err e ↦ err e | ok (a, u) ↦ f a u ]

  abbrev pub ◌>>◌ : {A B : Type 0} → M A → M B → M B
  m >> n = m >>= λ _. n

  -- A change of the map from scopes.
  abbrev pub hold : String → Option CollectionKey → M (Unit {0})
  hold scope c t =
      ok (tt, record t { held = λ other. if text_eq scope other then c else t.held other })

  abbrev pub set_record : String → Option StoredRecord → M (Unit {0})
  set_record scope r t =
      ok (tt, record t { records = λ other. if text_eq scope other then r else t.records other })

  -- The key in a secret of the right size, where one came.
  abbrev pub with_secret : KeyRecord → Option String → (String → ℕ) → CollectionKey
  with_secret rec none size = record { rec = some rec; secret = ""; key = none }
  with_secret rec (some secret) size = record {
    rec = some rec;
    secret = secret;
    key = if size secret == key_size then some (new_account_key secret) else none;
  }

  abbrev public_secret : Result SealError String → Option String
  public_secret (ok secret) = some secret
  public_secret (err e) = none

  abbrev pub secret_of : KeysTx → String → KeyRecord → Option String
  secret_of t scope rec = elim rec.public [
    | some public ↦ public_secret (open_sealed t.instance_key public)
    | none ↦ unwrap t.now rec.wraps (wrap_info scope) t.ring
  ]

  abbrev instance_opened : Result SealError String → Result KeysError String
  instance_opened (ok plain) = ok plain
  instance_opened (err e) = err (not_opened e)

  abbrev pub scope_opened : Sealed → CollectionKey → Result KeysError String
  scope_opened s c = elim c.key [
    | some k ↦ instance_opened (open_sealed k s)
    | none ↦ err (if is_some c.rec then key_locked else not_opened SealError.err_open)
  ]

  -- `size` is the number of a text's bytes.
  module _ (size : String → ℕ) where
    -- What `collection` reads where it holds nothing.
    unfoldable pub read_key : String → KeysTx → Result KeysError CollectionKey
    unfolding open_sealed unwrap
    read_key scope t = elim (t.records scope) [
      | none ↦ ok no_key
      | some unreadable ↦ err bad_key_record
      | some (key_record rec) ↦ ok (with_secret rec (secret_of t scope rec) size)
    ]

    -- `collection`.
    unfoldable pub collection : String → M CollectionKey
    unfolding read_key
    collection scope t = elim (t.held scope) [
      | some c ↦ ok (c, t)
      | none ↦ elim (read_key scope t) [ err e ↦ err e | ok c ↦ (do hold scope (some c); pure c) t ]
    ]

    -- `open` of a value in a scope.
    unfoldable pub open_value : String → Sealed → M String
    unfolding collection open_sealed
    open_value scope s t =
        if not (format_of s == by_account)
        then (elim (instance_opened (open_sealed t.instance_key s)) [
          | err e ↦ err e
          | ok plain ↦ ok (plain, t)
        ])
        else elim (collection scope t) [
          | err e ↦ err e
          | ok (c, u) ↦ elim (scope_opened s c) [ err e ↦ err e | ok plain ↦ ok (plain, u) ]
        ]

    -- The scan of `values`, over the records that the scope's prefixes name.
    unfoldable pub open_all : String → List (ValueKey × Sealed) → M (List (ValueKey × String))
    unfolding open_value
    open_all scope [] t = ok ([], t)
    open_all scope ((k, s) ∷ rest) t = elim (in_scope scope k) [
      | false ↦ open_all scope rest t
      | true ↦ elim (open_value scope s t) [
        | err e ↦ err e
        | ok (plain, u) ↦ elim (open_all scope rest u) [
          | err e ↦ err e
          | ok (found, v) ↦ ok ((k, plain) ∷ found, v)
        ]
      ]
    ]

    -- `values`.
    unfoldable pub values : String → M (List (ValueKey × String))
    unfolding open_all
    values scope t = open_all scope t.values t

    -- `saveKey`.
    abbrev pub save_key : String → KeyRecord → M (Unit {0})
    save_key scope rec = set_record scope (some (key_record rec))
