-- ===== src/Store/Removal/Gone.antt =====
-- A deleted collection leaves no object, no UID's entry and no record of itself.
use alborz.Prelude.{
  ℕ, String, Bool, true, false, ◌||◌, List, [], ◌∷◌, ◌++◌, Option, none, some, ok, ◌≡◌, refl, inl,
  inr, sym, ap, ◌∙◌, arith, if◌then◌else◌, Bool-cases, Result-cases, eq_iff,
}
use alborz.Store.Types.{Ref, Collection, Share, Dropped, Feed}
use alborz.Store.Keys.{Key, key_eq, key_eq_iff}
use alborz.Store.Stored.{Stored, collection_codec, share_codec, dropped_codec}
use alborz.Store.Rows.{lookup, lookup-insert, lookup-remove}
use alborz.Store.Env.{Env}
use alborz.Store.Tx.{Tx, Db, begin, get, delete, scan, each, on_keys}
use alborz.Store.Tx.Laws.{get-ok, put-ok, on_keys-ok, each-ok, update-run}
use alborz.Store.Names.{
  collection_key, dropped_key, public_key, scope_of, objects_of, uids_of, shares_of,
}
use alborz.Store.Collections.{change, publish}
use alborz.Store.Shares.Run.{change-ok}
use alborz.Store.Removal.{
  no_collection, delete_keys, keys_of, share_keys, leave_dropped, clear_collection, delete_in,
  delete_collection,
}
use alborz.Store.Removal.Scans.{
  has_key, has_key-append, scan_rows-has_key, scan-ok, lookup-delete_keys,
}

module _ ⦃env : Env⦄ where
  -- Neither of the two changes a record of a collection, an object or a UID.
  abbrev is_kept : Key → Bool
  is_kept (Key.public s) = false
  is_kept (Key.dropped o i) = false
  is_kept _ = true

  kept-apart : (k j : Key) → is_kept j ≡ false → is_kept k ≡ true → key_eq j k ≡ false
  kept-apart k j out keep = elim (Bool-cases (key_eq j k)) [
    | inl same ↦
        let e : j ≡ k = (key_eq_iff j k).0 same in
        absurd (true_false (sym keep ∙ ap is_kept (sym e) ∙ out))
    | inr other ↦ other
  ]
    where
      true_false : true ≡ false → ⊥
      true_false e = cc

  unpublish-ok :
      (before : String) (t : Tx) (k : Key) {u : Tx}
      → is_kept k ≡ true
      → publish before no_collection t ≡ ok (tt, u)
      → (lookup k u.rows ≡ lookup k t.rows) × (u.writing ≡ t.writing)
  unfolding publish delete
  unpublish-ok before t k {u} out h = ground (
    arith,
    h,
    out,
    eq_iff before "",
    lookup-remove (public_key before) k t.rows,
    kept-apart k (public_key before) refl out,
  )

  leave_dropped-ok :
      (ref : Ref) (feed : Option Feed) (now : ℕ) (t : Tx) (k : Key) {u : Tx}
      → is_kept k ≡ true
      → leave_dropped ref feed now t ≡ ok (tt, u)
      → (lookup k u.rows ≡ lookup k t.rows) × (u.writing ≡ t.writing)
  unfolding leave_dropped
  leave_dropped-ok ref none now t k out h = ground arith
  leave_dropped-ok ref (some feed) now t k {u} out h =
      let d : Dropped = record { id = ref.id; url = feed.url; at = now } in
      let e = put-ok (dropped_key ref) d t h in
      (
        ap (λ x. lookup k x.rows) e
            ∙ lookup-insert (dropped_key ref) k (Stored.dropped d) t.rows
            ∙ rw (kept-apart k (dropped_key ref) refl out) refl,
        ap (λ x. x.writing) e,
      )

  -- What `Delete` takes away, but for shares: the collection, its objects and their UIDs.
  abbrev pub is_deleted : Ref → Key → Bool
  is_deleted ref k = objects_of ref k || (uids_of ref k || key_eq (collection_key ref) k)

  -- The keys that are not a share's.
  abbrev pub is_of_contents : Key → Bool
  is_of_contents (Key.collection o i) = true
  is_of_contents (Key.object o i n) = true
  is_of_contents (Key.uid o i n) = true
  is_of_contents _ = false

  share_keys-has_key :
      (ref : Ref) (shares : List Share) (k : Key)
      → is_of_contents k ≡ true
      → has_key k (share_keys ref shares) ≡ false
  unfolding key_eq
  share_keys-has_key ref [] k c = refl
  share_keys-has_key ref (sh ∷ shares) (Key.collection o i) c =
      share_keys-has_key ref shares (Key.collection o i) c
  share_keys-has_key ref (sh ∷ shares) (Key.object o i n) c =
      share_keys-has_key ref shares (Key.object o i n) c
  share_keys-has_key ref (sh ∷ shares) (Key.uid o i n) c =
      share_keys-has_key ref shares (Key.uid o i n) c
  share_keys-has_key ref (sh ∷ shares) k c = absurd cc

  contents-kept : (k : Key) → is_of_contents k ≡ true → is_kept k ≡ true
  contents-kept (Key.collection o i) c = refl
  contents-kept (Key.object o i n) c = refl
  contents-kept (Key.uid o i n) c = refl
  contents-kept _ c = absurd cc

  clear_collection-ok :
      (ref : Ref) (t : Tx) (k : Key) {u : Tx}
      → t.writing ≡ true
      → is_of_contents k ≡ true
      → clear_collection ref t ≡ ok (tt, u)
      → lookup k u.rows ≡ (if is_deleted ref k then none else lookup k t.rows)
  unfolding clear_collection
  clear_collection-ok ref t k {u} w c h = elim (Result-cases (scan (objects_of ref) t)) [
    | inl (e, p) ↦ absurd (ground (arith, p))
    | inr ((objects, v), p) ↦
        let (s1, f1) = scan-ok (objects_of ref) t p in
        elim (Result-cases (scan (uids_of ref) t)) [
          | inl (e, q) ↦ absurd (ground (arith, p, q, s1))
          | inr ((uids, x), q) ↦
              let (s2, f2) = scan-ok (uids_of ref) t q in
              elim (Result-cases (each {T = Share} (shares_of ref) t)) [
                | inl (e, r) ↦ absurd (ground (arith, p, q, r, s1, s2))
                | inr ((shares, y), r) ↦
                    let s3 : y ≡ t = each-ok (shares_of ref) t r in
                    let gone =
                      keys_of objects
                      ++ (keys_of uids ++ (share_keys ref shares ++ collection_key ref ∷ [])) in
                    elim (Result-cases (delete_keys gone t)) [
                      | inl (e, d) ↦ absurd (ground (arith, p, q, r, d, s1, s2, s3))
                      | inr ((_, z), d) ↦
                          let keys : on_keys (env.drop_key (scope_of ref)) z ≡ ok (tt, u) =
                            ground (arith, p, q, r, d, s1, s2, s3) in
                          let rows : lookup k u.rows ≡ lookup k z.rows =
                            ap (lookup k) (on_keys-ok (env.drop_key (scope_of ref)) z keys).0 in
                          let in_gone : has_key k gone ≡ (
                              has_key k (keys_of objects)
                              || (has_key k (keys_of uids)
                                  || (has_key k (share_keys ref shares)
                                      || key_eq (collection_key ref) k))) =
                            gone_has k objects uids (share_keys ref shares) (collection_key ref) in
                          ground (
                            arith,
                            rows,
                            lookup-delete_keys gone t k d,
                            in_gone,
                            scan_rows-has_key (objects_of ref) t t.rows k w f1,
                            scan_rows-has_key (uids_of ref) t t.rows k w f2,
                            share_keys-has_key ref shares k c,
                          )
                    ]
              ]
        ]
  ]
    where
      gone_has :
          (k : Key) (objects uids : List (Key × Stored)) (shares : List Key) (j : Key)
          → has_key k (keys_of objects ++ (keys_of uids ++ (shares ++ j ∷ []))) ≡ (
              has_key k (keys_of objects)
              || (has_key k (keys_of uids) || (has_key k shares || key_eq j k)))
      gone_has k objects uids shares j = ground (
        arith,
        has_key-append k (keys_of objects) (keys_of uids ++ (shares ++ j ∷ [])),
        has_key-append k (keys_of uids) (shares ++ j ∷ []),
        has_key-append k shares (j ∷ []),
      )

  delete_in-ok :
      (ref : Ref) (now : ℕ) (t : Tx) (k : Key) {u : Tx}
      → t.writing ≡ true
      → is_of_contents k ≡ true
      → delete_in ref now t ≡ ok (tt, u)
      → lookup k u.rows ≡ (if is_deleted ref k then none else lookup k t.rows)
  unfolding delete_in
  delete_in-ok ref now t k {u} w c h =
      let keep = contents-kept k c in
      elim (Result-cases (get {T = Collection} (collection_key ref) t)) [
        | inl (e, p) ↦ absurd (ground (arith, p))
        | inr ((d, v), p) ↦
            let s1 : v ≡ t = (get-ok (collection_key ref) t p).0 in
            elim (Result-cases (publish d.public no_collection t)) [
              | inl (e, q) ↦ absurd (ground (arith, p, q, s1))
              | inr ((_, x), q) ↦
                  let (l1, w1) = unpublish-ok d.public t k keep q in
                  elim (Result-cases (leave_dropped ref d.feed now x)) [
                    | inl (e, r) ↦ absurd (ground (arith, p, q, r, s1))
                    | inr ((_, y), r) ↦
                        let (l2, w2) = leave_dropped-ok ref d.feed now x k keep r in
                        let last : clear_collection ref y ≡ ok (tt, u) =
                          ground (arith, p, q, r, s1) in
                        clear_collection-ok ref y k (w2 ∙ w1 ∙ w) c last
                        ∙ ap (λ o. if is_deleted ref k then none else o) (l2 ∙ l1)
                  ]
            ]
      ]

  -- `Delete` takes away all and only what is the collection's: after a success, of every record of
  -- a collection, an object or a UID, those of the collection deleted are gone, and every other
  -- one stands as before.
  pub lookup-delete_collection :
      (ref : Ref) (now : ℕ) (db : Db) (k : Key) {seen : List String} {db' : Db}
      → is_of_contents k ≡ true
      → delete_collection ref now db ≡ (ok (tt, seen), db')
      → lookup k db'.rows ≡ (if is_deleted ref k then none else lookup k db.rows)
  unfolding delete_collection
  lookup-delete_collection ref now db k c h =
      let run = update-run (change ref (delete_in ref now)) db h in
      ap (lookup k) run.rows_kept
      ∙ delete_in-ok ref now (begin true db) k refl c
          (change-ok ref (delete_in ref now) (begin true db) run.ran)
