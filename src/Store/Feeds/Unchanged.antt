-- ===== src/Store/Feeds/Unchanged.antt =====
-- What a fetch writes: nothing but the collection's record where it brings what is held, and a new ctag
-- where it does not.
use alborz.Prelude.{
  ℕ, ◌+◌, true, false, List, [], ◌∷◌, All, some, ok, ◌≡◌, inl, inr, refl, sym, ap, ◌∙◌, subst,
  arith, Result-cases, Option-cases,
}
use alborz.Store.Types.{Ref, Collection, Object, Feed, ref_of_collection}
use alborz.Store.Keys.{Key, key_eq, key_eq_iff}
use alborz.Store.Stored.{Stored, plain, number, collection_codec, object_codec}
use alborz.Store.Rows.{Rows, lookup, insert, remove, lookup-insert, lookup-remove}
use alborz.Store.Env.{Env}
use alborz.Store.Tx.{Tx, Db, begin, get, put, put_raw, delete, each}
use alborz.Store.Tx.Laws.{get-ok, put-ok, put_raw-ok, each-ok, update-run}
use alborz.Store.Names.{collection_key, object_key, uid_key, objects_of}
use alborz.Store.Collections.{u64, stamp}
use alborz.Store.Collections.Stamp.{Counted, unset, set_to, stamp-Stamps}
use alborz.Store.Feeds.{
  held_from, has_changed, clear_held, put_filled, as_filled, replace, replace_if, filled_by,
  fill_in, fill,
}
use alborz.Store.Feeds.Same.{IsDistinct, IsSame, HasEtag, has_changed-IsSame}

module _ ⦃env : Env⦄ where
  -- The counter of ctags is as it was, in a transaction that writes as before.
  record KeepsCounter (t u : Tx) : Type 0 where
    pub writes : u.writing ≡ t.writing
    pub counter : lookup Key.ctag u.rows ≡ lookup Key.ctag t.rows

  KeepsCounter-trans : {t u v : Tx} → KeepsCounter t u → KeepsCounter u v → KeepsCounter t v
  KeepsCounter-trans a b = record { writes = b.writes ∙ a.writes; counter = b.counter ∙ a.counter }

  clear_held-KeepsCounter :
      (ref : Ref) (os : List Object) (t : Tx) {u : Tx}
      → clear_held ref os t ≡ ok (tt, u)
      → KeepsCounter t u
  unfolding clear_held delete key_eq
  clear_held-KeepsCounter ref [] t {u} h =
      let same : t ≡ u = ground (arith, h) in
      record {
        writes = ap (λ (x : Tx). x.writing) (sym same);
        counter = ap (λ (x : Tx). lookup Key.ctag x.rows) (sym same);
      }
  clear_held-KeepsCounter ref (o ∷ os) t {u} h =
      let later =
        clear_held-KeepsCounter ref os
          (record t { rows = remove (uid_key ref o.uid) (remove (object_key ref o.name) t.rows) })
          {u = u} h in
      record {
        writes = later.writes;
        counter = later.counter ∙ rw (lookup-remove, lookup-remove) refl;
      }

  put_filled-KeepsCounter :
      (ref : Ref) (held : List Object) (now : ℕ) (os : List Object) (t : Tx) {u : Tx}
      → put_filled ref held now os t ≡ ok (tt, u)
      → KeepsCounter t u
  unfolding put_filled key_eq
  put_filled-KeepsCounter ref held now [] t {u} h =
      let same : t ≡ u = ground (arith, h) in
      record {
        writes = ap (λ (x : Tx). x.writing) (sym same);
        counter = ap (λ (x : Tx). lookup Key.ctag x.rows) (sym same);
      }
  put_filled-KeepsCounter ref held now (o ∷ os) t {u} h =
      let filled = as_filled held now o in
      elim (Result-cases (put (object_key ref o.name) filled t)) [
        | inl (e, p) ↦ absurd (ground (arith, p, h))
        | inr ((a, v), p) ↦ elim (Result-cases (put_raw (uid_key ref o.uid) (plain o.name) v)) [
          | inl (e, q) ↦ absurd (ground (arith, p, q, h))
          | inr ((b, x), q) ↦
              let later =
                put_filled-KeepsCounter ref held now os x {u = u} (ground (arith, p, q, h)) in
              let first = put-ok (object_key ref o.name) filled t p in
              let second = put_raw-ok (uid_key ref o.uid) (plain o.name) v q in
              record {
                writes =
                    later.writes
                    ∙ ap (λ (z : Tx). z.writing) second
                    ∙ ap (λ (z : Tx). z.writing) first;
                counter =
                    later.counter
                    ∙ ap (λ (z : Tx). lookup Key.ctag z.rows) second
                    ∙ rw lookup-insert refl
                    ∙ ap (λ (z : Tx). lookup Key.ctag z.rows) first
                    ∙ rw lookup-insert refl;
              }
        ]
      ]

  Counted-moved :
      {before after : Rows} {n : ℕ}
      → lookup Key.ctag after ≡ lookup Key.ctag before
      → Counted after n
      → Counted before n
  Counted-moved same (unset l e) = unset (sym same ∙ l) e
  Counted-moved same (set_to l) = set_to (sym same ∙ l)

  -- The collection with the number after the counter's, which is the counter now.
  record Renumbers (t : Tx) (c c' : Collection) (u : Tx) : Type 0 where
    pub last : ℕ
    pub counted : Counted t.rows last
    pub stamped : c' ≡ record c { ctag = u64 (last + 1) }
    pub counter : lookup Key.ctag u.rows ≡ some (number (u64 (last + 1)))

  replace-unchanged :
      (c : Collection) (os stored : List Object) (now : ℕ) (t : Tx) {u : Tx}
      → each {T = Object} (objects_of (ref_of_collection c)) t ≡ ok (stored, u)
      → has_changed (held_from [] stored) os ≡ false
      → replace c os now t ≡ ok (c, t)
  unfolding replace
  replace-unchanged c os stored now t e same =
      ground (arith, e, same, each-ok {T = Object} (objects_of (ref_of_collection c)) t e)

  replace-Renumbers :
      (c : Collection) (os stored : List Object) (now : ℕ) (t : Tx) {v : Tx} {c' : Collection}
      {u : Tx}
      → t.writing ≡ true
      → each {T = Object} (objects_of (ref_of_collection c)) t ≡ ok (stored, v)
      → has_changed (held_from [] stored) os ≡ true
      → replace c os now t ≡ ok (c', u)
      → Renumbers t c c' u
  unfolding replace key_eq
  replace-Renumbers c os stored now t {v} {c'} {u} w e other h =
      let ref = ref_of_collection c in
      let held = held_from [] stored in
      let same = each-ok {T = Object} (objects_of ref) t e in
      elim (Result-cases (clear_held ref held t)) [
        | inl (x, p) ↦ absurd (ground (arith, e, same, other, p, h))
        | inr ((a, t1), p) ↦ elim (Result-cases (put_filled ref held now os t1)) [
          | inl (x, q) ↦ absurd (ground (arith, e, same, other, p, q, h))
          | inr ((b, t2), q) ↦
              let kept =
                KeepsCounter-trans (clear_held-KeepsCounter ref held t p)
                  (put_filled-KeepsCounter ref held now os t1 q) in
              let last_step : stamp c t2 ≡ ok (c', u) = ground (arith, e, same, other, p, q, h) in
              let s = stamp-Stamps c t2 (kept.writes ∙ w) last_step in
              record {
                last = s.last;
                counted = Counted-moved kept.counter s.counted;
                stamped = s.stamped;
                counter = ap (λ (x : Tx). lookup Key.ctag x.rows) s.after ∙ rw lookup-insert refl;
              }
        ]
      ]

  -- What a fetch leaves of the calendar `c`: where it brought what is held, nothing is written but the
  -- collection's record, with what the feed said and the ctag it had; where it did not, the
  -- collection has the number after the counter's, which is the counter now.
  pub data Fills (ref : Ref) (feed : Feed) (os stored : List Object) (c : Collection)
      (before after : Rows) : Type 0 where
    unchanged :
        (kept : Feed)
        → filled_by c.feed feed ≡ some kept
        → IsSame stored os
        → after
          ≡ insert (collection_key ref) (Stored.collection (record c { feed = some kept })) before
        → Fills ref feed os stored c before after
    changed :
        (kept : Feed)
        → filled_by c.feed feed ≡ some kept
        → ¬ IsSame stored os
        → (last : ℕ) → Counted before last
        → lookup (collection_key ref) after
          ≡ some (Stored.collection (record c { feed = some kept; ctag = u64 (last + 1) }))
        → lookup Key.ctag after ≡ some (number (u64 (last + 1)))
        → Fills ref feed os stored c before after

  -- The rest of `Fill` for the calendar `c`.
  fill_in-Fills :
      (ref : Ref) (feed : Feed) (os stored : List Object) (now : ℕ) (c : Collection) (t : Tx)
      {u v : Tx}
      → t.writing ≡ true
      → lookup (collection_key ref) t.rows ≡ some (Stored.collection c)
      → each {T = Object} (objects_of (ref_of_collection c)) t ≡ ok (stored, v)
      → IsDistinct stored
      → All HasEtag os
      → fill_in ref feed (some os) now t ≡ ok (tt, u)
      → Fills ref feed os stored c t.rows u.rows
  unfolding fill_in replace_if key_eq
  fill_in-Fills ref feed os stored now c t {u} w there e distinct etags h =
      elim (Result-cases (get {T = Collection} (collection_key ref) t)) [
        | inl (f, p) ↦ absurd (ground (arith, p, h))
        | inr ((d, x), p) ↦
            let (s1, found) = get-ok (collection_key ref) t p in
            let it : d ≡ c = cc (sym found ∙ there) in
            elim (Option-cases (filled_by c.feed feed)) [
              | inl wrong ↦ absurd (ground (arith, p, s1, it, wrong, h))
              | inr (kept, right) ↦
                  let filled : Collection = record c { feed = some kept } in
                  elim (has_changed-IsSame stored os distinct etags) [
                    | inl (same, held) ↦
                        let last : put (collection_key ref) filled t ≡ ok (tt, u) = ground (
                          arith,
                          p,
                          s1,
                          it,
                          right,
                          replace-unchanged filled os stored now t e same,
                          h,
                        ) in
                        unchanged kept right held
                          (ap (λ (z : Tx). z.rows) (put-ok (collection_key ref) filled t last))
                    | inr (other, new) ↦ elim (Result-cases (replace filled os now t)) [
                      | inl (f, q) ↦ absurd (ground (arith, p, s1, it, right, q, h))
                      | inr ((c', y), q) ↦
                          let r = replace-Renumbers filled os stored now t w e other q in
                          let last : put (collection_key ref) c' y ≡ ok (tt, u) =
                            ground (arith, p, s1, it, right, q, h) in
                          let rows : u.rows
                              ≡ insert (collection_key ref) (Stored.collection c') y.rows =
                            ap (λ (z : Tx). z.rows) (put-ok (collection_key ref) c' y last) in
                          changed kept right new r.last r.counted
                            (ap (lookup (collection_key ref)) rows
                              ∙ rw lookup-insert (
                                  ground (
                                    arith,
                                    key_eq_iff (collection_key ref) (collection_key ref),
                                    r.stamped,
                                  )))
                            (ap (lookup Key.ctag) rows ∙ rw lookup-insert r.counter)
                    ]
                  ]
            ]
      ]

  -- A successful `Fill` of a calendar with the objects of a fetch: where the fetch brought as many objects
  -- as are stored, each stored under its name with the ETag of its bytes, the collection's record
  -- alone is written and keeps its ctag; in every other case the collection has the number after the
  -- counter's, which is the counter now. The stored objects have each a name of their own, and no
  -- ETag of a fetched object is empty.
  pub fill-Fills :
      (ref : Ref) (feed : Feed) (os stored : List Object) (now : ℕ) (c : Collection) (db : Db)
      {db' : Db} {v : Tx}
      → lookup (collection_key ref) db.rows ≡ some (Stored.collection c)
      → each {T = Object} (objects_of (ref_of_collection c)) (begin true db) ≡ ok (stored, v)
      → IsDistinct stored
      → All HasEtag os
      → fill ref feed (some os) now db ≡ (ok tt, db')
      → Fills ref feed os stored c db.rows db'.rows
  unfolding fill
  fill-Fills ref feed os stored now c db there e distinct etags h =
      let run = update-run (fill_in ref feed (some os) now) db h in
      subst (Fills ref feed os stored c db.rows) (sym run.rows_kept)
        (fill_in-Fills ref feed os stored now c (begin true db) refl there e distinct etags run.ran)
