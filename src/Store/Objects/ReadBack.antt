-- ===== src/Store/Objects/ReadBack.antt =====
-- What a successful `PutObject` is worth: the object reads back as it was put.
use alborz.Prelude.{
  ℕ, String, true, false, Option, none, some, ok, err, ◌≡◌, ◌≢◌, refl, sym, ap, ◌∙◌, arith, eq_iff,
  if◌then◌else◌,
}
use alborz.Store.Types.{Ref, Object, not_found}
use alborz.Store.Keys.{Key, key_eq, key_eq_iff, key_apart}
use alborz.Store.Stored.{Stored, object_codec}
use alborz.Store.Rows.{lookup}
use alborz.Store.Env.{Env}
use alborz.Store.Tx.{Tx, Db, begin, view, get, find, get_raw, opened}
use alborz.Store.Tx.Laws.{update-run, update-keeps}
use alborz.Store.Names.{object_key}
use alborz.Store.Access.Sound.{MayWrite}
use alborz.Store.Objects.{
  Unless, other_uid, made_by, new_object, put_object, put_object_in, remove_object,
  remove_object_in, object,
}
use alborz.Store.Objects.Held.{Held, absent, present}
use alborz.Store.Objects.Run.{Puts, Removes, put_object_in-Puts, remove_object_in-Removes}
use alborz.Store.Objects.Uids.{Writes-object}
use alborz.Store.Objects.Unindex.{Removes-object}

module _ ⦃env : Env⦄ where
  -- What `Object` answers, by what stands under the key and whether it opens.
  object-lookup :
      (ref : Ref) (name : String) (db : Db) (o : Object)
      → env.opens (env.afresh db.held) (object_key ref name) ≡ none
      → lookup (object_key ref name) db.rows ≡ some (Stored.object o)
      → object ref name db ≡ ok o
  unfolding object view get find get_raw opened
  object-lookup ref name db o opens h = ground (arith, h, opens)

  object-none :
      (ref : Ref) (name : String) (db : Db)
      → lookup (object_key ref name) db.rows ≡ none
      → object ref name db ≡ err not_found
  unfolding object view get find get_raw
  object-none ref name db h = ground (arith, h)

  put_object-Puts :
      (ref : Ref) (name uid bytes : String) (unless : Unless) (by : String) (now : ℕ) (db : Db)
      {o : Object} {db' : Db}
      → put_object ref name uid bytes unless by now db ≡ (ok o, db')
      → (u : Tx) × Puts (begin true db) ref name uid bytes by now o u × (db'.rows ≡ u.rows)
  unfolding put_object
  put_object-Puts ref name uid bytes unless by now db h =
      let run = update-run (put_object_in ref name uid bytes unless by now) db h in
      (
        run.after,
        put_object_in-Puts ref name uid bytes unless by now (begin true db) refl run.ran,
        run.rows_kept,
      )

  remove_object-Removes :
      (ref : Ref) (name : String) (unless : Unless) (by : String) (now : ℕ) (db : Db) {db' : Db}
      → remove_object ref name unless by now db ≡ (ok tt, db')
      → (u : Tx) × Removes (begin true db) ref name by now u × (db'.rows ≡ u.rows)
  unfolding remove_object
  remove_object-Removes ref name unless by now db h =
      let run = update-run (remove_object_in ref name unless by now) db h in
      (
        run.after,
        remove_object_in-Removes ref name unless by now (begin true db) refl run.ran,
        run.rows_kept,
      )

  -- Whoever writes an object may write: a successful `PutObject` was made by the collection's owner
  -- or by who holds a share that is live now and allows writing, and no feed fills the collection.
  pub put_object-MayWrite :
      (ref : Ref) (name uid bytes : String) (unless : Unless) (by : String) (now : ℕ) (db : Db)
      {o : Object} {db' : Db}
      → put_object ref name uid bytes unless by now db ≡ (ok o, db')
      → MayWrite db.rows ref (env.lower by) now
  put_object-MayWrite ref name uid bytes unless by now db h =
      (put_object-Puts ref name uid bytes unless by now db h).1.may

  -- Whoever removes an object may write: a successful `RemoveObject` was made by the collection's
  -- owner or by who holds a share that is live now and allows writing, and no feed fills the
  -- collection.
  pub remove_object-MayWrite :
      (ref : Ref) (name : String) (unless : Unless) (by : String) (now : ℕ) (db : Db) {db' : Db}
      → remove_object ref name unless by now db ≡ (ok tt, db')
      → MayWrite db.rows ref (env.lower by) now
  remove_object-MayWrite ref name unless by now db h =
      (remove_object-Removes ref name unless by now db h).1.may

  made_by-fields :
      (old : Option Object) (name uid bytes by : String) (now : ℕ)
      → (let o = made_by old (new_object name uid bytes by now) in
          (o.name ≡ name)
          × (o.uid ≡ uid)
          × (o.bytes ≡ bytes)
          × (o.etag ≡ env.etag_of bytes)
          × (o.editor ≡ by)
          × (o.modified ≡ now))
  made_by-fields none name uid bytes by now = (refl, refl, refl, refl, refl, refl)
  made_by-fields (some old) name uid bytes by now = (refl, refl, refl, refl, refl, refl)

  -- The object that `PutObject` returns has the name, UID, bytes, ETag, editor and time of the call.
  pub record Made (name uid bytes by : String) (now : ℕ) (o : Object) : Type 0 where
    pub name_is : o.name ≡ name
    pub uid_is : o.uid ≡ uid
    pub bytes_are : o.bytes ≡ bytes
    pub etag_is : o.etag ≡ env.etag_of bytes
    pub editor_is : o.editor ≡ by
    pub modified_is : o.modified ≡ now

  Puts-Made :
      {t : Tx} {ref : Ref} {name uid bytes by : String} {now : ℕ} {o : Object} {u : Tx}
      → Puts t ref name uid bytes by now o u
      → Made name uid bytes by now o
  Puts-Made {name = name} {uid} {bytes} {by} {now} p =
      let (n, i, b, e, d, m) = made_by-fields p.old name uid bytes by now in
      record {
        name_is = ap (λ x. x.name) p.answer ∙ n;
        uid_is = ap (λ x. x.uid) p.answer ∙ i;
        bytes_are = ap (λ x. x.bytes) p.answer ∙ b;
        etag_is = ap (λ x. x.etag) p.answer ∙ e;
        editor_is = ap (λ x. x.editor) p.answer ∙ d;
        modified_is = ap (λ x. x.modified) p.answer ∙ m;
      }

  Puts-object :
      {t : Tx} {ref : Ref} {name uid bytes by : String} {now : ℕ} {o : Object} {u : Tx}
      → Puts t ref name uid bytes by now o u
      → lookup (object_key ref name) u.rows ≡ some (Stored.object o)
  Puts-object {ref = ref} {name} p =
      Writes-object _ _ _ p.writes
      ∙ rw ((key_eq_iff (object_key ref name) (object_key ref name)).1 refl) refl

  -- After a successful `PutObject`, `Object` finds the object it returned under its name, with the
  -- name, UID, bytes, ETag, editor and time of the call, provided the value under that key opens
  -- in a new transaction.
  pub object-put_object :
      (ref : Ref) (name uid bytes : String) (unless : Unless) (by : String) (now : ℕ) (db : Db)
      {o : Object} {db' : Db}
      → put_object ref name uid bytes unless by now db ≡ (ok o, db')
      → env.opens (env.afresh db'.held) (object_key ref name) ≡ none
      → (object ref name db' ≡ ok o) × Made name uid bytes by now o
  object-put_object ref name uid bytes unless by now db {o} {db'} h opens =
      let (u, p, kept) = put_object-Puts ref name uid bytes unless by now db h in
      (
        object-lookup ref name db' o opens (ap (lookup (object_key ref name)) kept ∙ Puts-object p),
        Puts-Made p,
      )

  -- Replacing keeps what is the object's own: where an object stood under the name before a
  -- successful `PutObject`, the one returned has its creator, its time of creation and its UID.
  pub put_object-creator :
      (ref : Ref) (name uid bytes : String) (unless : Unless) (by : String) (now : ℕ) (db : Db)
      {o : Object} {db' : Db} (old : Object)
      → put_object ref name uid bytes unless by now db ≡ (ok o, db')
      → lookup (object_key ref name) db.rows ≡ some (Stored.object old)
      → (o.creator ≡ old.creator) × (o.created ≡ old.created) × (o.uid ≡ old.uid)
  put_object-creator ref name uid bytes unless by now db {o} old h there =
      let (u, p, kept) = put_object-Puts ref name uid bytes unless by now db h in
      below p.old p.held p.same_uid p.answer
    where
      below :
          (was : Option Object)
          → Held db.rows ref name was
          → other_uid was uid ≡ false
          → o ≡ made_by was (new_object name uid bytes by now)
          → (o.creator ≡ old.creator) × (o.created ≡ old.created) × (o.uid ≡ old.uid)
      below was (absent l e) same answer = absurd cc
      below none (present w l e) same answer = absurd cc
      below (some x) (present w l e) same answer =
          let is_old : x ≡ old = cc in
          let uids : x.uid ≡ uid = (eq_iff x.uid uid).0 (ground arith) in
          (
            ap (λ y. y.creator) answer ∙ ap (λ y. y.creator) is_old,
            ap (λ y. y.created) answer ∙ ap (λ y. y.created) is_old,
            ap (λ y. y.uid) answer ∙ sym uids ∙ ap (λ y. y.uid) is_old,
          )

  -- A write is local: whatever `PutObject` returns, the object under another name or in another
  -- collection is stored as before.
  pub put_object-others :
      (ref : Ref) (name uid bytes : String) (unless : Unless) (by : String) (now : ℕ) (db : Db)
      (owner id n : String)
      → object_key ref name ≢ Key.object owner id n
      → lookup (Key.object owner id n) (put_object ref name uid bytes unless by now db).1.rows
        ≡ lookup (Key.object owner id n) db.rows
  unfolding put_object
  put_object-others ref name uid bytes unless by now db owner id n apart =
      update-keeps
        (λ rows. lookup (Key.object owner id n) rows ≡ lookup (Key.object owner id n) db.rows)
        (put_object_in ref name uid bytes unless by now) db
        (λ o u ran same.
          Writes-object owner id n
            (put_object_in-Puts ref name uid bytes unless by now (begin true db) refl ran).writes
          ∙ rw (key_apart (object_key ref name) (Key.object owner id n) apart) same)
        refl

  -- After a successful `RemoveObject` the name is not found, and what stands under every object's
  -- key is what stood there before, but for that one.
  pub object-remove_object :
      (ref : Ref) (name : String) (unless : Unless) (by : String) (now : ℕ) (db : Db)
      (owner id n : String) {db' : Db}
      → remove_object ref name unless by now db ≡ (ok tt, db')
      → (object ref name db' ≡ err not_found)
        × (lookup (Key.object owner id n) db'.rows ≡ (
            if key_eq (object_key ref name) (Key.object owner id n)
            then none
            else lookup (Key.object owner id n) db.rows))
  object-remove_object ref name unless by now db owner id n {db'} h =
      let (u, p, kept) = remove_object-Removes ref name unless by now db h in
      (
        object-none ref name db' (
            ap (lookup (object_key ref name)) kept
            ∙ Removes-object _ _ _ p
            ∙ rw ((key_eq_iff (object_key ref name) (object_key ref name)).1 refl) refl),
        ap (lookup (Key.object owner id n)) kept ∙ Removes-object owner id n p,
      )
