-- ===== src/CollectionKeys/Ops.antt =====
-- What changes a collection's key: wraps, publication, and sealing every record again.
use text.Mathlib.Text.{◌==◌ as text_eq}
use alborz.Prelude.{
  ℕ, String, Bool, false, not, ◌&&◌, ◌||◌, List, [], ◌∷◌, Option, none, some, ok, if◌then◌else◌,
}
use alborz.Seal.{Crypto, SealKey, Sealed, seal, new_account_key}
use alborz.Keyring.{Wrap, is_some}
use alborz.Keyring.Ops.{wrap, id}
use alborz.CollectionKeys.{
  key_locked, ValueKey, same_key, wrap_info, KeyRecord, CollectionKey, KeysTx, M, pure, fail, ◌>>=◌,
  ◌>>◌, is_locked, hold, set_record, save_key, collection, values,
}

module _ ⦃crypto : Crypto⦄ where
  -- `Put` into the data file.
  unfoldable pub put_value : ValueKey → Sealed → List (ValueKey × Sealed) → List (ValueKey × Sealed)
  put_value k s [] = (k, s) ∷ []
  put_value k s ((j, w) ∷ rows) =
      if same_key j k then (k, s) ∷ rows else (j, w) ∷ put_value k s rows

  -- Each value sealed under the key and put back.
  unfoldable pub put_all :
      SealKey → List (ValueKey × String) → List (ValueKey × Sealed) → List (ValueKey × Sealed)
  unfolding put_value seal
  put_all key [] rows = rows
  put_all key ((k, plain) ∷ vs) rows = put_all key vs (put_value k (seal key plain) rows)

  abbrev pub put_sealed : SealKey → List (ValueKey × String) → M (Unit {0})
  put_sealed key vs t = ok (tt, record t { values = put_all key vs t.values })

  -- `Wraps[name]`, its assignment, and `delete`.
  unfoldable pub find_wrap : String → List (String × Wrap) → Option Wrap
  find_wrap name [] = none
  find_wrap name ((n, w) ∷ ws) = if text_eq n name then some w else find_wrap name ws

  unfoldable pub set_wrap : String → Wrap → List (String × Wrap) → List (String × Wrap)
  set_wrap name w [] = (name, w) ∷ []
  set_wrap name w ((n, v) ∷ ws) =
      if text_eq n name then (name, w) ∷ ws else (n, v) ∷ set_wrap name w ws

  unfoldable pub drop_wrap : String → List (String × Wrap) → List (String × Wrap)
  drop_wrap name [] = []
  drop_wrap name ((n, v) ∷ ws) =
      let rest = drop_wrap name ws in if text_eq n name then rest else (n, v) ∷ rest

  abbrev pub add_wrap : String → Option Wrap → List (String × Wrap) → List (String × Wrap)
  add_wrap name none ws = ws
  add_wrap name (some w) ws = set_wrap name w ws

  -- The loop of `rekey` over the holders.
  unfoldable pub wraps_for :
      KeysTx → String → String → List String → List (String × Wrap) → List (String × Wrap)
  unfolding wrap set_wrap
  wraps_for t scope secret [] ws = ws
  wraps_for t scope secret (name ∷ names) ws =
      wraps_for t scope secret names
        (add_wrap name (wrap t.now name secret (wrap_info scope) t.ring) ws)

  abbrev pub is_published : Option KeyRecord → Bool
  is_published none = false
  is_published (some rec) = is_some rec.public

  -- The key that `rekey` makes of a fresh secret.
  abbrev pub fresh_record : KeysTx → String → String → List String → Bool → KeyRecord
  fresh_record t scope secret holders published = record {
    wraps = wraps_for t scope secret holders [];
    public = if published then some (seal t.instance_key secret) else none;
  }

  -- `keyed(tx)`'s answer is the state at hand.
  abbrev current : M KeysTx
  current t = ok (t, t)

  abbrev to_of : Option Wrap → String
  to_of none = ""
  to_of (some w) = w.to

  -- A wrap to the account's public key as it is now.
  abbrev is_current : Option Wrap → String → Bool
  is_current w id = text_eq (to_of w) id && not (text_eq (to_of w) "")

  abbrev rec_of : Option KeyRecord → KeyRecord
  rec_of none = record { wraps = []; public = none }
  rec_of (some rec) = rec

  module _ (size : String → ℕ) where
    -- `rekey`; `secret` is what `rand.Read` gave.
    unfoldable pub rekey : String → List String → String → M (Unit {0})
    unfolding collection values put_all wraps_for seal
    rekey scope holders secret = do
      c ← collection size scope
      if is_locked c then fail key_locked else do
        vs ← values size scope
        t ← current
        let rec = fresh_record t scope secret holders (is_published c.rec)
        let key = new_account_key secret
        hold scope (some (record { rec = some rec; secret = secret; key = some key }))
        save_key size scope rec
        put_sealed key vs

    -- `encrypt`.
    unfoldable pub encrypt : String → List String → String → M (Unit {0})
    unfolding collection rekey
    encrypt scope holders secret = do
      c ← collection size scope
      if is_some c.rec then pure tt else rekey scope holders secret

    -- `dropKey`.
    unfoldable pub drop_key : String → M (Unit {0})
    drop_key scope = do hold scope none; set_record scope none

    -- `decrypt`.
    unfoldable pub decrypt : String → M (Unit {0})
    unfolding collection values put_all drop_key
    decrypt scope = do
      c ← collection size scope
      if not (is_some c.rec)
          then pure tt
          else if is_locked c
          then fail key_locked
          else do vs ← values size scope; t ← current; put_sealed t.instance_key vs; drop_key scope

    -- A collection's key with another record, held and saved.
    abbrev keep_record : String → CollectionKey → KeyRecord → M (Unit {0})
    keep_record scope c rec = do
      hold scope (some (record c { rec = some rec }))
      save_key size scope rec

    -- `wrapTo`.
    unfoldable pub wrap_to : String → String → M (Unit {0})
    unfolding collection find_wrap set_wrap wrap
    wrap_to scope name = do
      c ← collection size scope
      t ← current
      let rec = rec_of c.rec
      if not (is_some c.key) || is_current (find_wrap name rec.wraps) (id t.now name t.ring)
          then pure tt
          else elim (wrap t.now name c.secret (wrap_info scope) t.ring) [
            | none ↦ pure tt
            | some w ↦ keep_record scope c (record rec { wraps = set_wrap name w rec.wraps })
          ]

    -- `unwrapFrom`.
    unfoldable pub unwrap_from : String → String → M (Unit {0})
    unfolding collection drop_wrap
    unwrap_from scope name = do
      c ← collection size scope
      let rec = rec_of c.rec
      if not (is_some c.rec)
          then pure tt
          else keep_record scope c (record rec { wraps = drop_wrap name rec.wraps })

    -- `publicWrap`.
    unfoldable pub public_wrap : String → Bool → M (Unit {0})
    unfolding collection seal
    public_wrap scope published = do
      c ← collection size scope
      t ← current
      let rec = rec_of c.rec
      if not (is_some c.rec)
            || (is_some rec.public && published)
            || (not (is_some rec.public) && not published)
          then pure tt
          else if is_locked c
          then fail key_locked
          else keep_record scope c (record rec {
            public = if published then some (seal t.instance_key c.secret) else none;
          })

    unfoldable pub wrap_to_all : String → List String → M (Unit {0})
    unfolding wrap_to
    wrap_to_all scope [] = pure tt
    wrap_to_all scope (name ∷ names) = do wrap_to scope name; wrap_to_all scope names

    -- The transaction of `Reseal` for one collection of the account: `on` is whether its encryption
    -- is, and `others` the accounts that it is shared to.
    unfoldable pub reseal_own : String → String → Bool → List String → String → M (Unit {0})
    unfolding collection decrypt rekey encrypt wrap_to_all find_wrap
    reseal_own scope name on others secret = if not on then decrypt scope else do
      c ← collection size scope
      t ← current
      (if is_some c.key
            && not (text_eq (to_of (find_wrap name (rec_of c.rec).wraps)) (id t.now name t.ring))
          then rekey scope (name ∷ others) secret
          else encrypt scope (name ∷ others) secret)
      wrap_to_all scope others
