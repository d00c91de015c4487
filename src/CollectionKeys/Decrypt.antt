-- ===== src/CollectionKeys/Decrypt.antt =====
-- A collection's own key dropped again, and what a key that nothing opens refuses.
use alborz.Prelude.{
  ℕ, String, true, not, List, none, some, ok, err, ◌≡◌, inl, inr, refl, ap, ◌∙◌, arith, eq_refl,
  Bool-cases,
}
use alborz.Seal.{
  Crypto, IsLawful, SealKey, Sealed, by_account, by_instance, format_of, new_account_key,
}
use alborz.Keyring.{is_some}
use alborz.CollectionKeys.{
  key_locked, ValueKey, CollectionKey, KeysTx, is_locked, collection, open_value, values,
}
use alborz.CollectionKeys.Ops.{rekey, encrypt, decrypt, is_published, drop_key, public_wrap}
use alborz.CollectionKeys.Values.{IsMap, collection-keeps, collection-again, open_all-put_all}
use alborz.CollectionKeys.Resealed.{put_all-Resealed, Resealed-IsMap}
use alborz.CollectionKeys.Rekey.{
  rekey-Rekeyed, values-looked, values-rekey, instance_opens, renewed, decrypted,
}

module _ ⦃crypto : Crypto⦄ (size : String → ℕ) where
  decrypt-held :
      (scope : String) (t : KeysTx) (c : CollectionKey) {vs : List (ValueKey × String)}
      → t.held scope ≡ some c
      → is_some c.rec ≡ true
      → is_some c.key ≡ true
      → values size scope t ≡ ok (vs, t)
      → decrypt size scope t ≡ ok (tt, decrypted scope vs t)
  unfolding decrypt drop_key values
  decrypt-held scope t c held rec key found =
      ground (arith, collection-again size scope t held, rec, key, found)

  module _ (lawful : IsLawful crypto) where
    values-decrypted :
        (scope : String) (t : KeysTx) {vs : List (ValueKey × String)}
        → t.instance_key.format ≡ by_instance
        → IsMap t.values
        → values size scope t ≡ ok (vs, t)
        → values size scope (decrypted scope vs t) ≡ ok (vs, decrypted scope vs t)
    unfolding values
    values-decrypted scope t {vs} format distinct found =
        open_all-put_all size scope t.instance_key t.values t (decrypted scope vs t)
          (λ plain. instance_opens size lawful scope (decrypted scope vs t) plain format) distinct
          found

    -- Turning a collection's encryption on and off again keeps its records: where it had no key of its
    -- own, its records opened and `encrypt` succeeds, `decrypt` then succeeds too, the records open
    -- to the same, in the same order, and no key of its own is left. The data file has one value
    -- under each key, and the instance's key is a login key's.
    pub decrypt-encrypt :
        (scope : String) (holders : List String) (secret : String) (t : KeysTx) {c : CollectionKey}
        {looked u v : KeysTx} {vs : List (ValueKey × String)}
        → t.instance_key.format ≡ by_instance
        → IsMap t.values
        → collection size scope t ≡ ok (c, looked)
        → c.rec ≡ none
        → values size scope t ≡ ok (vs, v)
        → encrypt size scope holders secret t ≡ ok (tt, u)
        → (w : KeysTx) × (decrypt size scope u ≡ ok (tt, w))
          × (values size scope w ≡ ok (vs, w))
          × (w.records scope ≡ none)
    unfolding encrypt
    decrypt-encrypt scope holders secret t {c} {looked} {u} {v} {vs} format distinct collected bare
          before run =
        let keeps = collection-keeps size scope t collected in
        let looked_map : IsMap looked.values = rw (ap (λ (x : KeysTx). x.values) keeps) distinct in
        let looked_values = values-looked size scope t collected before in
        let again : rekey size scope holders secret looked ≡ ok (tt, u) =
          ground (arith, collected, bare, run) in
        let r = rekey-Rekeyed size scope holders secret looked again in
        let (opened, others) =
          values-rekey size lawful scope holders secret looked looked_map looked_values again in
        let looked_again : IsMap r.looked.values =
          rw (ap (λ (x : KeysTx). x.values) (collection-keeps size scope looked r.collected))
            looked_map in
        let resealed =
          put_all-Resealed size scope (new_account_key secret) r.looked.values r.looked looked_again
            r.found in
        let u_map : IsMap u.values =
          rw (ap (λ (x : KeysTx). x.values) r.done) (Resealed-IsMap size resealed looked_again) in
        let u_key : u.instance_key ≡ t.instance_key =
          ap (λ (x : KeysTx). x.instance_key) r.done
          ∙ ap (λ (x : KeysTx). x.instance_key) (collection-keeps size scope looked r.collected)
          ∙ ap (λ (x : KeysTx). x.instance_key) keeps in
        let held : u.held scope ≡ some (renewed scope holders secret r.c r.looked) =
          ap (λ (x : KeysTx). x.held scope) r.done ∙ ground (arith, eq_refl scope) in
        (
          decrypted scope vs u,
          decrypt-held scope u (renewed scope holders secret r.c r.looked) held refl refl opened,
          values-decrypted scope u (ap (λ (k : SealKey). k.format) u_key ∙ format) u_map opened,
          ground (arith, eq_refl scope),
        )

  -- A key that nothing at hand opens stops every operation that needs it: where the collection has a
  -- key of its own and it is locked, `rekey`, `decrypt` and opening a value under an account's key
  -- answer that the key is locked, whatever the holders, as does `publicWrap` to the other state of
  -- publication.
  pub locked_refuses :
      (scope : String) (holders : List String) (secret : String) (s : Sealed) (t : KeysTx)
      {c : CollectionKey} {looked : KeysTx}
      → collection size scope t ≡ ok (c, looked)
      → is_locked c ≡ true
      → format_of s ≡ by_account
      → (rekey size scope holders secret t ≡ err key_locked)
        × (decrypt size scope t ≡ err key_locked)
        × (open_value size scope s t ≡ err key_locked)
        × (public_wrap size scope (not (is_published c.rec)) t ≡ err key_locked)
  unfolding rekey decrypt open_value public_wrap
  locked_refuses scope holders secret s t {c} h locked format = (
    ground (arith, h, locked),
    ground (arith, h, locked),
    ground (arith, h, locked, format),
    elim (Bool-cases (is_published c.rec)) [
      | inl public ↦ ground (arith, h, locked, public)
      | inr private ↦ ground (arith, h, locked, private)
    ],
  )
