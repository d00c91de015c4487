-- ===== src/Store/Objects/Run.antt =====
-- A successful write or removal of an object, step by step: what it read and what it wrote.
use text.Mathlib.Text.{◌==◌}
use alborz.Prelude.{
  ℕ, String, true, false, not, Option, none, some, ok, ◌≡◌, ◌⊎◌, refl, inl, inr, sym, ap, ◌∙◌,
  arith, eq_iff, if◌then◌else◌, Bool-cases, Result-cases, subst,
}
use alborz.Store.Types.{Ref, Object}
use alborz.Store.Stored.{Stored, collection_codec, object_codec}
use alborz.Store.Rows.{Rows, lookup, insert, remove}
use alborz.Store.Env.{Env}
use alborz.Store.Tx.{Tx, get, find, put, delete}
use alborz.Store.Tx.Laws.{find-ok, put-ok, get-ok}
use alborz.Store.Names.{object_key, uid_key}
use alborz.Store.Access.{writable}
use alborz.Store.Access.Sound.{MayWrite, writable-MayWrite}
use alborz.Store.Collections.{touch}
use alborz.Store.Collections.Stamp.{Touches, touch-Touches}
use alborz.Store.Objects.Held.{Held, Indexes, no_uid, indexed, find-Held, index_uid-Indexes}
use alborz.Store.Objects.{
  Unless, etag_held, other_uid, made_by, ask, index_uid, new_object, put_object_in,
  remove_object_in, keep_object, drop_object,
}

module _ ⦃env : Env⦄ where
  ask-ok :
      (unless : Unless) (held : String) (t : Tx) {u : Tx} → ask unless held t ≡ ok (tt, u) → u ≡ t
  unfolding ask
  ask-ok none held t h = ground arith
  ask-ok (some unless) held t h = ground arith

  -- What the end of `PutObject` wrote.
  pub record Writes (t : Tx) (ref : Ref) (name : String) (o : Object) (u : Tx) : Type 0 where
    pub indexing : Tx
    pub index : Indexes t ref name o.uid indexing
    pub writing : Tx
    pub write :
        writing
        ≡ record indexing { rows = insert (object_key ref name) (Stored.object o) indexing.rows }
    pub stamp : Touches writing ref u

  Indexes-writing :
      {t : Tx} {ref : Ref} {name uid : String} {u : Tx}
      → Indexes t ref name uid u
      → u.writing ≡ t.writing
  Indexes-writing (no_uid e f) = ap (λ x. x.writing) f
  Indexes-writing (indexed e free f) = ap (λ x. x.writing) f

  keep_object-Writes :
      (ref : Ref) (name : String) (o : Object) (t : Tx) {o' : Object} {u : Tx}
      → t.writing ≡ true
      → keep_object ref name o t ≡ ok (o', u)
      → (o' ≡ o) × Writes t ref name o u
  unfolding keep_object
  keep_object-Writes ref name o t {o'} {u} w h = elim (Result-cases (index_uid ref name o.uid t)) [
    | inl (e, p) ↦ absurd (ground (arith, p))
    | inr ((_, v), p) ↦
        let index = index_uid-Indexes ref name o.uid t w p in
        elim (Result-cases (put (object_key ref name) o v)) [
          | inl (e, q) ↦ absurd (ground (arith, p, q))
          | inr ((_, x), q) ↦
              let write = put-ok (object_key ref name) o v q in
              elim (Result-cases (touch ref x)) [
                | inl (e, r) ↦ absurd (ground (arith, p, q, r))
                | inr ((_, y), r) ↦
                    let same : (o ≡ o') × (y ≡ u) = ground (arith, p, q, r) in
                    let still : x.writing ≡ true =
                      ap (λ z. z.writing) write ∙ Indexes-writing index ∙ w in
                    (
                      sym same.0,
                      record {
                        indexing = v;
                        index = index;
                        writing = x;
                        write = write;
                        stamp = subst (Touches x ref) same.1 (touch-Touches ref x still r);
                      },
                    )
              ]
        ]
  ]

  -- What a successful `PutObject` did.
  pub record Puts (t : Tx) (ref : Ref) (name uid bytes by : String) (now : ℕ) (o : Object) (u : Tx)
      : Type 0 where
    pub may : MayWrite t.rows ref (env.lower by) now
    pub old : Option Object
    pub held : Held t.rows ref name old
    pub same_uid : other_uid old uid ≡ false
    pub answer : o ≡ made_by old (new_object name uid bytes by now)
    pub writes : Writes t ref name o u

  pub put_object_in-Puts :
      (ref : Ref) (name uid bytes : String) (unless : Unless) (by : String) (now : ℕ) (t : Tx)
      {o : Object} {u : Tx}
      → t.writing ≡ true
      → put_object_in ref name uid bytes unless by now t ≡ ok (o, u)
      → Puts t ref name uid bytes by now o u
  unfolding put_object_in
  put_object_in-Puts ref name uid bytes unless by now t {o} {u} w h =
      elim (Result-cases (writable ref by now t)) [
        | inl (e, p) ↦ absurd (ground (arith, p))
        | inr ((_, v), p) ↦
            let (s1, may) = writable-MayWrite ref by now t p in
            elim (Result-cases (find {T = Object} (object_key ref name) t)) [
              | inl (e, q) ↦ absurd (ground (arith, p, q, s1))
              | inr ((old, x), q) ↦
                  let s2 : x ≡ t = find-ok (object_key ref name) t q in
                  elim (Result-cases (ask unless (etag_held old) t)) [
                    | inl (e, a) ↦ absurd (ground (arith, p, q, a, s1, s2))
                    | inr ((_, y), a) ↦
                        let s3 : y ≡ t = ask-ok unless (etag_held old) t a in
                        let made = made_by old (new_object name uid bytes by now) in
                        let r : (other_uid old uid ≡ false)
                            × (keep_object ref name made t ≡ ok (o, u)) =
                          ground (arith, p, q, a, s1, s2, s3) in
                        let (same, writes) = keep_object-Writes ref name made t w r.1 in
                        record {
                          may = may;
                          old = old;
                          held = find-Held ref name t old w q;
                          same_uid = r.0;
                          answer = same;
                          writes = subst (λ z. Writes t ref name z u) (sym same) writes;
                        }
                  ]
            ]
      ]

  -- What a successful `RemoveObject` did.
  pub record Removes (t : Tx) (ref : Ref) (name by : String) (now : ℕ) (u : Tx) : Type 0 where
    pub may : MayWrite t.rows ref (env.lower by) now
    pub old : Object
    pub held : lookup (object_key ref name) t.rows ≡ some (Stored.object old)
    pub unindexed : Rows
    pub unindex :
        ((old.uid ≡ "") × (unindexed ≡ t.rows))
        ⊎ (((old.uid == "") ≡ false) × (unindexed ≡ remove (uid_key ref old.uid) t.rows))
    pub removing : Tx
    pub removed : removing ≡ record t { rows = remove (object_key ref name) unindexed }
    pub stamp : Touches removing ref u

  -- The entry of a UID is taken away before its object.
  abbrev unindexed_rows : Ref → Object → Rows → Rows
  unindexed_rows ref old rows =
      if not (old.uid == "") then remove (uid_key ref old.uid) rows else rows

  unindex_cases :
      (ref : Ref) (old : Object) (rows : Rows)
      → ((old.uid ≡ "") × (unindexed_rows ref old rows ≡ rows))
        ⊎ (((old.uid == "") ≡ false)
            × (unindexed_rows ref old rows ≡ remove (uid_key ref old.uid) rows))
  unindex_cases ref old rows = elim (Bool-cases (old.uid == "")) [
    | inl empty ↦ inl ((eq_iff old.uid "").0 empty, rw empty)
    | inr named ↦ inr (named, rw named)
  ]

  drop_object-touch :
      (ref : Ref) (name : String) (old : Object) (t : Tx)
      → drop_object ref name old t
        ≡ touch ref
            (record t { rows = remove (object_key ref name) (unindexed_rows ref old t.rows) })
  unfolding drop_object delete
  drop_object-touch ref name old t = elim (Bool-cases (old.uid == "")) [
    | inl empty ↦ rw empty
    | inr named ↦ rw named
  ]

  pub remove_object_in-Removes :
      (ref : Ref) (name : String) (unless : Unless) (by : String) (now : ℕ) (t : Tx) {u : Tx}
      → t.writing ≡ true
      → remove_object_in ref name unless by now t ≡ ok (tt, u)
      → Removes t ref name by now u
  unfolding remove_object_in
  remove_object_in-Removes ref name unless by now t {u} w h =
      elim (Result-cases (writable ref by now t)) [
        | inl (e, p) ↦ absurd (ground (arith, p))
        | inr ((_, v), p) ↦
            let (s1, may) = writable-MayWrite ref by now t p in
            elim (Result-cases (get {T = Object} (object_key ref name) t)) [
              | inl (e, q) ↦ absurd (ground (arith, p, q, s1))
              | inr ((old, x), q) ↦
                  let (s2, held) = get-ok (object_key ref name) t q in
                  elim (Result-cases (ask unless old.etag t)) [
                    | inl (e, a) ↦ absurd (ground (arith, p, q, a, s1, s2))
                    | inr ((_, y), a) ↦
                        let s3 : y ≡ t = ask-ok unless old.etag t a in
                        let rows = unindexed_rows ref old t.rows in
                        let removing : Tx = record t { rows = remove (object_key ref name) rows } in
                        let dropping : drop_object ref name old t ≡ ok (tt, u) =
                          ground (arith, p, q, a, s1, s2, s3) in
                        record {
                          may = may;
                          old = old;
                          held = held;
                          unindexed = rows;
                          unindex = unindex_cases ref old t.rows;
                          removing = removing;
                          removed = refl;
                          stamp =
                              touch-Touches ref removing w
                                (sym (drop_object-touch ref name old t) ∙ dropping);
                        }
                  ]
            ]
      ]
