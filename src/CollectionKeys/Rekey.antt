-- ===== src/CollectionKeys/Rekey.antt =====
-- A collection's records under a new key of its own, or under the instance's again.
use text.Mathlib.Text.{◌==◌ as text_eq}
use alborz.Prelude.{
  ℕ, String, false, List, All, none, some, ok, err, if◌then◌else◌, ◌≡◌, inl, inr, refl, ap, ◌∙◌,
  sym, arith, eq_refl, eq_iff, Result-cases, Option-cases,
}
use alborz.Seal.{
  Crypto, IsLawful, err_open, Sealed, by_account, by_instance, seal, open_sealed, open_sealed-seal,
  new_account_key,
}
use alborz.CollectionKeys.{
  ValueKey, key_record, CollectionKey, KeysTx, collection, open_value, open_all, values,
}
use alborz.CollectionKeys.Ops.{put_all, rekey, fresh_record, is_published}
use alborz.CollectionKeys.Values.{
  IsMap, collection-held, collection-keeps, collection-again, open_all-again, open_all-put_all,
}
use alborz.CollectionKeys.Resealed.{
  inside, outside, put_all-Resealed, Resealed-inside, Resealed-outside,
}

module _ ⦃crypto : Crypto⦄ where
  -- The state after `rekey` and after `decrypt`, of the records found.
  abbrev pub renewed : String → List String → String → CollectionKey → KeysTx → CollectionKey
  renewed scope holders secret c t = record {
    rec = some (fresh_record t scope secret holders (is_published c.rec));
    secret = secret;
    key = some (new_account_key secret);
  }

  abbrev pub rekeyed :
      String → List String → String → CollectionKey → List (ValueKey × String) → KeysTx → KeysTx
  rekeyed scope holders secret c vs t =
      let rec = fresh_record t scope secret holders (is_published c.rec) in
      record t {
        held = λ other.
            if text_eq scope other then some (renewed scope holders secret c t) else t.held other;
        records = λ other. if text_eq scope other then some (key_record rec) else t.records other;
        values = put_all (new_account_key secret) vs t.values;
      }

  abbrev pub decrypted : String → List (ValueKey × String) → KeysTx → KeysTx
  decrypted scope vs t = record t {
    held = λ other. if text_eq scope other then none else t.held other;
    records = λ other. if text_eq scope other then none else t.records other;
    values = put_all t.instance_key vs t.values;
  }

  -- A key that stays outside the scope's: the account key of another secret opens none of it.
  abbrev pub OpensNot : String → Sealed → Type 0
  OpensNot old s = open_sealed (new_account_key old) s ≡ err err_open

  module _ (size : String → ℕ) where
    -- The steps of a `rekey` that succeeds.
    pub record Rekeyed (scope : String) (holders : List String) (secret : String) (t u : KeysTx)
        : Type 0 where
      pub c : CollectionKey
      pub looked : KeysTx
      pub vs : List (ValueKey × String)
      pub collected : collection size scope t ≡ ok (c, looked)
      pub found : values size scope looked ≡ ok (vs, looked)
      pub done : u ≡ rekeyed scope holders secret c vs looked

    pub rekey-Rekeyed :
        (scope : String) (holders : List String) (secret : String) (t : KeysTx) {u : KeysTx}
        → rekey size scope holders secret t ≡ ok (tt, u)
        → Rekeyed scope holders secret t u
    unfolding rekey values
    rekey-Rekeyed scope holders secret t {u} run = elim (Result-cases (collection size scope t)) [
      | inl (e, f) ↦ absurd (ground (arith, f, run))
      | inr ((c, t1), f) ↦ elim (Result-cases (values size scope t1)) [
        | inl (e, g) ↦ absurd (ground (arith, f, g, run))
        | inr ((vs, t2), g) ↦
            let again = collection-again size scope t1 (collection-held size scope t f) in
            let g1 = open_all-again size scope t1.values t1 again g in
            record {
              c = c;
              looked = t1;
              vs = vs;
              collected = f;
              found = g1;
              done = ground (arith, f, g1, run);
            }
      ]
    ]

    pub values-looked :
        (scope : String) (t : KeysTx) {c : CollectionKey} {t1 v : KeysTx}
        {vs : List (ValueKey × String)}
        → collection size scope t ≡ ok (c, t1)
        → values size scope t ≡ ok (vs, v)
        → values size scope t1 ≡ ok (vs, t1)
    unfolding values
    values-looked scope t {c} {t1} {v} {vs} h before =
        ap (λ x. open_all size scope x t1)
          (ap (λ (x : KeysTx). x.values) (collection-keeps size scope t h))
        ∙ open_all-again size scope t.values t h before

    module _ (lawful : IsLawful crypto) where
      pub held_opens :
          (scope secret : String) (u : KeysTx) {c : CollectionKey} (plain : String)
          → u.held scope ≡ some c
          → c.key ≡ some (new_account_key secret)
          → open_value size scope (seal (new_account_key secret) plain) u ≡ ok (plain, u)
      unfolding open_value seal
      held_opens scope secret u plain h key = ground (
        arith,
        collection-again size scope u h,
        key,
        open_sealed-seal lawful (new_account_key secret) plain refl,
      )

      pub instance_opens :
          (scope : String) (u : KeysTx) (plain : String)
          → u.instance_key.format ≡ by_instance
          → open_value size scope (seal u.instance_key plain) u ≡ ok (plain, u)
      unfolding open_value seal
      instance_opens scope u plain h =
          ground (arith, h, open_sealed-seal lawful u.instance_key plain (ground (arith, h)))

      other-OpensNot :
          (old secret plain : String)
          → text_eq old secret ≡ false
          → OpensNot old (seal (new_account_key secret) plain)
      unfolding open_sealed seal
      other-OpensNot old secret plain other =
          elim (Option-cases
            (crypto.decrypt old by_account (crypto.encrypt secret by_account plain))) [
              | inl fails ↦ ground (arith, fails)
              | inr (found, opens) ↦ absurd (
                  ground (
                    arith,
                    other,
                    eq_iff old secret,
                    lawful.authentic old secret by_account plain found opens,
                  ))
            ]

      -- A collection's records survive its new key: where `rekey` succeeds and the records opened
      -- before, they open to the same afterwards, in the same order, and no record of another scope
      -- changed. The data file has one value under each key.
      pub values-rekey :
          (scope : String) (holders : List String) (secret : String) (t : KeysTx) {u v : KeysTx}
          {vs : List (ValueKey × String)}
          → IsMap t.values
          → values size scope t ≡ ok (vs, v)
          → rekey size scope holders secret t ≡ ok (tt, u)
          → (values size scope u ≡ ok (vs, u)) × (outside scope u.values ≡ outside scope t.values)
      unfolding values
      values-rekey scope holders secret t {u} {v} {vs} distinct before run =
          let r = rekey-Rekeyed scope holders secret t run in
          let keeps = collection-keeps size scope t r.collected in
          let same : r.looked.values ≡ t.values = ap (λ (x : KeysTx). x.values) keeps in
          let key = new_account_key secret in
          let found = values-looked scope t r.collected before in
          let all : r.vs ≡ vs = ground (arith, r.found, found) in
          let after = rekeyed scope holders secret r.c r.vs r.looked in
          let opened : values size scope after ≡ ok (r.vs, after) =
            open_all-put_all size scope key r.looked.values r.looked after
              (λ plain.
                held_opens scope secret after {c = renewed scope holders secret r.c r.looked} plain
                  (ground (arith, eq_refl scope)) refl)
              (rw same distinct) r.found in
          let resealed =
            put_all-Resealed size scope key r.looked.values r.looked (rw same distinct) r.found in
          (
            ap (values size scope) r.done
                ∙ opened
                ∙ ap (λ x. ok (x, after)) all
                ∙ ap (λ x. ok (vs, x)) (sym r.done),
            ap (λ (x : KeysTx). outside scope x.values) r.done
                ∙ Resealed-outside size resealed
                ∙ ap (outside scope) same,
          )

      -- The key that was replaced opens nothing afterwards: where `rekey` succeeds, no record of the
      -- collection opens under an account key of another secret than the new one.
      pub rekey-OpensNot :
          (scope : String) (holders : List String) (secret old : String) (t : KeysTx) {u : KeysTx}
          → IsMap t.values
          → text_eq old secret ≡ false
          → rekey size scope holders secret t ≡ ok (tt, u)
          → All (λ row. OpensNot old row.1) (inside scope u.values)
      unfolding values
      rekey-OpensNot scope holders secret old t {u} distinct other run =
          let r = rekey-Rekeyed scope holders secret t run in
          let keeps = collection-keeps size scope t r.collected in
          let same : r.looked.values ≡ t.values = ap (λ (x : KeysTx). x.values) keeps in
          let key = new_account_key secret in
          let resealed =
            put_all-Resealed size scope key r.looked.values r.looked (rw same distinct) r.found in
          rw (ap (λ (x : KeysTx). x.values) r.done) (
            Resealed-inside size (OpensNot old) (λ plain. other-OpensNot old secret plain other)
              resealed)
