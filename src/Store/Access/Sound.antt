-- ===== src/Store/Access/Sound.antt =====
-- Who may write into a collection, said without the code's order of tests.
use text.Mathlib.Text.{◌==◌}
use alborz.Prelude.{
  ℕ, ◌<◌, String, true, false, none, some, ok, ◌≡◌, ◌≢◌, ◌⊎◌, refl, inl, inr, sym, ap, ◌∙◌, arith,
  eq_iff, Bool-cases, Result-cases, subst,
}
use alborz.Store.Types.{Ref, Collection, Share, Access, own, live, access_of, can_write}
use alborz.Store.Stored.{Stored, collection_codec, share_codec}
use alborz.Store.Rows.{Rows, lookup}
use alborz.Store.Env.{Env}
use alborz.Store.Tx.{Tx, get}
use alborz.Store.Tx.Laws.{get-ok}
use alborz.Store.Names.{collection_key, share_key}
use alborz.Store.Access.{allowed, writable, is_fed}

-- The share was accepted and its last moment is not past.
pub record IsLive (sh : Share) (now : ℕ) : Type 0 where
  pub accepted : sh.accepted ≡ true
  pub unexpired : (sh.expires ≡ 0) ⊎ (now < sh.expires)

live-IsLive : (sh : Share) (now : ℕ) → live sh now ≡ true → IsLive sh now
unfolding live
live-IsLive sh now h = ground arith

pub IsLive-live : (sh : Share) (now : ℕ) → IsLive sh now → live sh now ≡ true
unfolding live
IsLive-live sh now h = ground arith

module _ ⦃env : Env⦄ where
  -- The share that lets `account` in.
  pub record Shared (rows : Rows) (ref : Ref) (account : String) (now : ℕ) : Type 0 where
    pub share : Share
    pub stored : lookup (share_key ref account) rows ≡ some (Stored.share share)
    pub is_live : IsLive share now

  -- What `account` may do with the collection, as the records say it.
  pub record Permits (rows : Rows) (ref : Ref) (account : String) (now : ℕ) (c : Collection)
      (a : Access) : Type 0 where
    pub stored : lookup (collection_key ref) rows ≡ some (Stored.collection c)
    pub by_right :
        ((c.owner ≡ account) × (a ≡ own))
        ⊎ ((c.owner ≢ account) × ((s : Shared rows ref account now) × (a ≡ access_of s.share)))

  pub allowed-Permits :
      (ref : Ref) (account : String) (now : ℕ) (t : Tx) {c : Collection} {a : Access} {u : Tx}
      → allowed ref account now t ≡ ok ((c, a), u)
      → (u ≡ t) × Permits t.rows ref account now c a
  unfolding allowed
  allowed-Permits ref account now t {c} {a} {u} h =
      elim (Result-cases (get {T = Collection} (collection_key ref) t)) [
        | inl (e, p) ↦ absurd (ground (arith, p))
        | inr ((d, v), p) ↦
            let (same, found) = get-ok (collection_key ref) t p in
            elim (Bool-cases (d.owner == account)) [
              | inl mine ↦
                  let r : (d ≡ c) × (own ≡ a) × (v ≡ u) = ground (arith, p, mine) in
                  (
                    sym r.2 ∙ same,
                    as_answered r.0 r.1 (record {
                      stored = found;
                      by_right = inl ((eq_iff d.owner account).0 mine, refl);
                    }),
                  )
              | inr other ↦ elim (Result-cases (get {T = Share} (share_key ref account) v)) [
                | inl (e, q) ↦ absurd (ground (arith, p, other, q))
                | inr ((sh, w), q) ↦ elim (Bool-cases (live sh now)) [
                  | inl lives ↦
                      let r : (d ≡ c) × (access_of sh ≡ a) × (w ≡ u) =
                        ground (arith, p, other, q, lives) in
                      let (same', found') = get-ok (share_key ref account) v q in
                      (
                        sym r.2 ∙ same' ∙ same,
                        as_answered r.0 r.1 (record {
                          stored = found;
                          by_right = inr (
                            (λ e. never_true (sym other ∙ (eq_iff d.owner account).1 e)),
                            (
                              record {
                                share = sh;
                                stored =
                                    ap (λ x. lookup (share_key ref account) x.rows) (sym same)
                                    ∙ found';
                                is_live = live-IsLive sh now lives;
                              },
                              refl,
                            ),
                          );
                        }),
                      )
                  | inr ended ↦ absurd (ground (arith, p, other, q, ended))
                ]
              ]
            ]
      ]
    where
      as_answered :
          {d : Collection} {b : Access}
          → d ≡ c
          → b ≡ a
          → Permits t.rows ref account now d b
          → Permits t.rows ref account now c a
      as_answered {d} {b} p q r =
          subst (λ x. Permits t.rows ref account now x a) p
            (subst (λ x. Permits t.rows ref account now d x) q r)

      never_true : false ≡ true → ⊥
      never_true e = cc

  -- Whoever may write into the collection: its owner, or who holds a live share to write; into a
  -- calendar that a feed fills, nobody.
  pub record MayWrite (rows : Rows) (ref : Ref) (account : String) (now : ℕ) : Type 0 where
    pub collection : Collection
    pub stored : lookup (collection_key ref) rows ≡ some (Stored.collection collection)
    pub not_fed : collection.feed ≡ none
    pub by_right :
        (collection.owner ≡ account) ⊎ ((s : Shared rows ref account now) × (s.share.write ≡ true))

  can_write-access_of : (sh : Share) → can_write (access_of sh) ≡ true → sh.write ≡ true
  unfolding access_of
  can_write-access_of sh h = ground arith

  Permits-MayWrite :
      (rows : Rows) (ref : Ref) (account : String) (now : ℕ) (c : Collection) (a : Access)
      → Permits rows ref account now c a
      → can_write a ≡ true
      → is_fed c.feed ≡ false
      → MayWrite rows ref account now
  Permits-MayWrite rows ref account now c a p w f = record {
    collection = c;
    stored = p.stored;
    not_fed = ground arith;
    by_right = elim p.by_right [
      | inl (mine, e) ↦ inl mine
      | inr (other, (s, e)) ↦ inr (s, can_write-access_of s.share (ap can_write (sym e) ∙ w))
    ];
  }

  pub writable-MayWrite :
      (ref : Ref) (by : String) (now : ℕ) (t : Tx) {u : Tx}
      → writable ref by now t ≡ ok (tt, u)
      → (u ≡ t) × MayWrite t.rows ref (env.lower by) now
  unfolding writable
  writable-MayWrite ref by now t {u} h = elim (Result-cases (allowed ref (env.lower by) now t)) [
    | inl (e, p) ↦ absurd (ground (arith, p))
    | inr (((c, a), v), p) ↦
        let (same, permits) = allowed-Permits ref (env.lower by) now t p in
        let r : (v ≡ u) × (can_write a ≡ true) × (is_fed c.feed ≡ false) = ground (arith, p) in
        (sym r.0 ∙ same, Permits-MayWrite t.rows ref (env.lower by) now c a permits r.1 r.2)
  ]

  -- In an `Update` of records that open, whoever may write is let in.
  pub MayWrite-writable :
      (ref : Ref) (by : String) (now : ℕ) (t : Tx)
      → env.opens t.held (collection_key ref) ≡ none
      → env.opens t.held (share_key ref (env.lower by)) ≡ none
      → MayWrite t.rows ref (env.lower by) now
      → writable ref by now t ≡ ok (tt, t)
  unfolding writable get access_of
  MayWrite-writable ref by now t oc os m = elim m.by_right [
    | inl mine ↦
        ground (arith, oc, mine, m.stored, m.not_fed, eq_iff m.collection.owner (env.lower by))
    | inr (s, w) ↦ ground (
      arith,
      oc,
      os,
      m.stored,
      m.not_fed,
      s.stored,
      w,
      IsLive-live s.share now s.is_live,
      eq_iff m.collection.owner (env.lower by),
    )
  ]
