-- ===== src/CollectionKeys/Holders.antt =====
-- Who opens a collection after its key was made anew: the accounts that it was wrapped to.
use text.Mathlib.Text.{◌==◌ as text_eq}
use alborz.Prelude.{
  ℕ, String, true, false, List, [], none, some, ok, if◌then◌else◌, ◌≡◌, refl, ap, ◌∙◌, subst, sym,
  arith, eq_refl, Option-cases,
}
use alborz.Seal.{Crypto, IsLawful, new_account_key}
use alborz.Keyring.{Wrap, Ring, get, instance_key, pairs_purpose}
use alborz.Keyring.Ops.{wrap, unwrap, key_of_wrap}
use alborz.CollectionKeys.{
  ValueKey, KeyRecord, key_record, wrap_info, key_size, secret_of, read_key, CollectionKey, KeysTx,
  collection, values,
}
use alborz.CollectionKeys.Ops.{find_wrap, wraps_for, rekey, fresh_record, is_published}
use alborz.CollectionKeys.Values.{IsMap, open_all-put_all, collection-keeps}
use alborz.CollectionKeys.Rekey.{rekey-Rekeyed, rekeyed, renewed, values-looked, held_opens}
use alborz.CollectionKeys.Wraps.{
  has_name, find_wrap-wraps_for, share, wraps_for-HoldsSecret, unwrap-HoldsSecret,
}

module _ ⦃crypto : Crypto⦄ where
  -- The key made anew is wrapped to its holders and to nobody else: where `rekey` succeeds, the record
  -- of the key has for an account the wrap that the ring makes of the new secret, if the account is
  -- one of the holders, and none if it is not, whoever had a wrap of the key before.
  pub rekey-find_wrap :
      (size : String → ℕ) (scope : String) (holders : List String) (secret name : String)
      (t : KeysTx) {u : KeysTx}
      → rekey size scope holders secret t ≡ ok (tt, u)
      → (rec : KeyRecord) × (u.records scope ≡ some (key_record rec))
        × (find_wrap name rec.wraps ≡ (
            if has_name name holders
            then wrap t.now name secret (wrap_info scope) t.ring
            else none))
  unfolding find_wrap
  rekey-find_wrap size scope holders secret name t {u} run =
      let r = rekey-Rekeyed size scope holders secret t run in
      let looked_share : share r.looked scope secret name ≡ share t scope secret name =
        ap (λ (x : KeysTx). share x scope secret name)
          (collection-keeps size scope t r.collected) in
      let rec = fresh_record r.looked scope secret holders (is_published r.c.rec) in
      let stored : u.records scope ≡ some (key_record rec) =
        ap (λ (x : KeysTx). x.records scope) r.done ∙ ground (arith, eq_refl scope) in
      let wrapped = find_wrap-wraps_for r.looked scope secret name holders [] in
      (rec, stored, ground (arith, wrapped, looked_share, Option-cases (share t scope secret name)))

  -- A later transaction on the same data file: it holds no key yet, and has the ring as it is then.
  abbrev pub later : ℕ → Ring → KeysTx → KeysTx
  later now ring t = record t { held = λ scope. none; ring = ring; now = now }

  -- The wrap of the secret to a pair of the account's.
  abbrev pub pair_wrap : KeysTx → String → String → String → crypto.Private → Wrap
  pair_wrap t scope secret name p = record {
    to = (get t.now name t.ring).id;
    wrapped = crypto.wrap (crypto.public_of p) (wrap_info scope) secret;
  }

  abbrev own_key_of : KeyRecord → String → CollectionKey
  own_key_of rec secret = record {
    rec = some rec;
    secret = secret;
    key = some (new_account_key secret);
  }

  abbrev holding : String → CollectionKey → KeysTx → KeysTx
  holding scope c t = record t {
    held = λ other. if text_eq scope other then some c else t.held other;
  }

  module _ (lawful : IsLawful crypto) (size : String → ℕ) where
    later-collection :
        (scope secret : String) (u : KeysTx) {rec : KeyRecord}
        → u.records scope ≡ some (key_record rec)
        → u.held scope ≡ none
        → secret_of u scope rec ≡ some secret
        → size secret ≡ key_size
        → collection size scope u
          ≡ ok (own_key_of rec secret, holding scope (own_key_of rec secret) u)
    unfolding collection read_key
    later-collection scope secret u stored fresh given size_ok =
        ground (arith, stored, fresh, given, size_ok)

    wraps_for-opens :
        (scope : String) (holders : List String) (secret name : String) (t : KeysTx)
        (p : crypto.Private) (w : Wrap) (now : ℕ) (ring : Ring)
        → has_name name holders ≡ true
        → share t scope secret name ≡ some w
        → w.wrapped ≡ crypto.wrap (crypto.public_of p) (wrap_info scope) secret
        → key_of_wrap (instance_key ring pairs_purpose) (get now name ring) w ≡ some p
        → unwrap now (wraps_for t scope secret holders []) (wrap_info scope) ring ≡ some secret
    unfolding find_wrap
    wraps_for-opens scope holders secret name t p w now ring named made wrapped key =
        unwrap-HoldsSecret lawful now (wrap_info scope) secret name ring
          (wraps_for t scope secret holders []) w p
          (wraps_for-HoldsSecret t scope secret holders [] tt)
          (find_wrap-wraps_for t scope secret name holders [] ∙ ground (arith, named, made)) key
          (ap (crypto.unwrap p (wrap_info scope)) wrapped
            ∙ lawful.unwrap-wrap p (wrap_info scope) secret)

    -- A holder reads the collection afterwards: where the records opened and `rekey` succeeds for a
    -- collection that is not published, the holders name an account with the pair `p`, and in a
    -- later transaction the ring has the private key for a wrap to that pair, whatever else it has,
    -- then the collection's key comes to hand there, and its records open to the same. The
    -- data file has one value under each key, and the secret is one of `seal.KeySize` bytes.
    pub values-later :
        (scope : String) (holders : List String) (secret name : String) (t : KeysTx)
        (p : crypto.Private) (now : ℕ) (ring : Ring) {c : CollectionKey} {looked u v : KeysTx}
        {vs : List (ValueKey × String)}
        → IsMap t.values
        → size secret ≡ key_size
        → collection size scope t ≡ ok (c, looked)
        → is_published c.rec ≡ false
        → values size scope t ≡ ok (vs, v)
        → rekey size scope holders secret t ≡ ok (tt, u)
        → has_name name holders ≡ true
        → (get t.now name t.ring).public ≡ some (crypto.public_of p)
        → key_of_wrap
            (instance_key ring pairs_purpose)
            (get now name ring)
            (pair_wrap t scope secret name p)
          ≡ some p
        → (after : KeysTx) × (collection size scope (later now ring u)
            ≡ ok (renewed scope holders secret c looked, after))
          × (values size scope after ≡ ok (vs, after))
    unfolding values wrap
    values-later scope holders secret name t p now ring {c} {looked} {u} {v} {vs} distinct size_ok
          collected bare before run named paired key =
        let r = rekey-Rekeyed size scope holders secret t run in
        let same_c : r.c ≡ c = ground (arith, r.collected, collected) in
        let same_looked : r.looked ≡ looked = ground (arith, r.collected, collected) in
        let keeps = collection-keeps size scope t collected in
        let found = values-looked size scope t collected before in
        let same_vs : r.vs ≡ vs = ground (arith, r.found, same_looked, found) in
        let done : u ≡ rekeyed scope holders secret c vs looked =
          r.done
          ∙ ap (λ x. rekeyed scope holders secret x r.vs r.looked) same_c
          ∙ ap (λ x. rekeyed scope holders secret c x r.looked) same_vs
          ∙ ap (rekeyed scope holders secret c vs) same_looked in
        let made : share looked scope secret name ≡ some (pair_wrap t scope secret name p) =
          ap (λ (x : KeysTx). share x scope secret name) keeps ∙ ground (arith, paired) in
        let distinct_looked : IsMap looked.values =
          rw (ap (λ (x : KeysTx). x.values) keeps) distinct in
        let w = pair_wrap t scope secret name p in
        let rec = fresh_record looked scope secret holders (is_published c.rec) in
        let at : KeysTx = later now ring (rekeyed scope holders secret c vs looked) in
        let after : KeysTx = holding scope (renewed scope holders secret c looked) at in
        let unwrapped =
          wraps_for-opens scope holders secret name looked p w now ring named made refl key in
        let opens : secret_of at scope rec ≡ some secret = ground (arith, bare, unwrapped) in
        subst
          (λ (x : KeysTx).
            (after : KeysTx) × (collection size scope (later now ring x)
              ≡ ok (renewed scope holders secret c looked, after))
            × (values size scope after ≡ ok (vs, after)))
          (sym done)
          (
            after,
            later-collection scope secret at (ground (arith, eq_refl scope)) refl opens size_ok,
            open_all-put_all size scope (new_account_key secret) looked.values looked after
                (λ plain.
                  held_opens size lawful scope secret after
                    {c = renewed scope holders secret c looked} plain
                    (ground (arith, eq_refl scope)) refl)
                distinct_looked found,
          )
