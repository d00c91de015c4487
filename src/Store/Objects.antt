-- ===== src/Store/Objects.antt =====
-- Writing, removing and reading one object.
pub mod Held
pub mod Run
pub mod Uids
pub mod Unindex
pub mod Unique
pub mod ReadBack
use text.Mathlib.Text.{◌==◌}
use alborz.Prelude.{
  ℕ, String, Bool, true, false, not, ◌&&◌, ◌||◌, List, [], ◌∷◌, ◌++◌, Option, none, some, Result,
  length, if◌then◌else◌,
}
use alborz.Store.Types.{
  Ref, Collection, Object, Feed, StoreError, uid_conflict, wrong_feed, not_found,
}
use alborz.Store.Keys.{Key}
use alborz.Store.Stored.{Stored, plain, collection_codec, object_codec}
use alborz.Store.Env.{Env}
use alborz.Store.Tx.{
  M, Db, pure, fail, ◌>>=◌, ◌>>◌, get, get_raw, find, put, put_raw, delete, each, update, view,
}
use alborz.Store.Names.{collection_key, object_key, uid_key, objects_of}
use alborz.Store.Access.{writable}
use alborz.Store.Collections.{stamp, touch}

-- `Unless`: why a write is off, given the held ETag or empty; `none` is a nil function.
abbrev pub Unless : Type 0
Unless = Option (String → Option StoreError)

abbrev pub etag_held : Option Object → String
etag_held none = ""
etag_held (some old) = old.etag

-- An object of another UID may not be replaced.
abbrev pub other_uid : Option Object → String → Bool
other_uid none uid = false
other_uid (some old) uid = not (old.uid == uid)

abbrev pub has_uid : Option Object → String → Bool
has_uid none uid = false
has_uid (some other) uid = other.uid == uid

-- The creator of an object that was there stays.
abbrev pub made_by : Option Object → Object → Object
made_by none o = o
made_by (some old) o = record o { creator = old.creator; created = old.created }

module _ ⦃env : Env⦄ where
  unfoldable pub ask : Unless → String → M (Unit {0})
  ask none held = pure tt
  ask (some unless) held = elim (unless held) [ none ↦ pure tt | some e ↦ fail e ]

  -- The holder of a UID, if it is another name than this one.
  unfoldable pub other_holder : Option Stored → String → Option String
  other_holder (some (plain holder)) name = if holder == name then none else some holder
  other_holder _ name = none

  -- An index entry is believed only where its object agrees.
  unfoldable pub check_holder : Ref → String → Option String → M (Unit {0})
  check_holder ref uid none = pure tt
  check_holder ref uid (some holder) = do
    other ← find {T = Object} (object_key ref holder)
    if has_uid other uid then fail uid_conflict else pure tt

  unfoldable pub index_uid : Ref → String → String → M (Unit {0})
  unfolding other_holder check_holder
  index_uid ref name uid = if uid == "" then pure tt else do
    held ← get_raw (uid_key ref uid)
    check_holder ref uid (other_holder held name)
    put_raw (uid_key ref uid) (plain name)

  abbrev pub new_object : String → String → String → String → ℕ → Object
  new_object name uid bytes by now = record {
    name = name;
    uid = uid;
    bytes = bytes;
    etag = env.etag_of bytes;
    modified = now;
    creator = by;
    created = now;
    editor = by;
  }

  -- The end of `PutObject`: the UID's entry, the object and a new ctag.
  unfoldable pub keep_object : Ref → String → Object → M Object
  unfolding index_uid
  keep_object ref name o = do
    index_uid ref name o.uid
    put (object_key ref name) o
    touch ref
    pure o

  -- `PutObject` inside its transaction, and `PutObject`.
  unfoldable pub put_object_in : Ref → String → String → String → Unless → String → ℕ → M Object
  unfolding ask keep_object
  put_object_in ref name uid bytes unless by now = do
    writable ref by now
    old ← find {T = Object} (object_key ref name)
    ask unless (etag_held old)
    if other_uid old uid
        then fail uid_conflict
        else keep_object ref name (made_by old (new_object name uid bytes by now))

  unfoldable pub put_object :
      Ref → String → String → String → Unless → String → ℕ → Db → Result StoreError Object × Db
  unfolding put_object_in
  put_object ref name uid bytes unless by now =
      update (put_object_in ref name uid bytes unless by now)

  -- The end of `RemoveObject`.
  unfoldable pub drop_object : Ref → String → Object → M (Unit {0})
  drop_object ref name old = do
    (if not (old.uid == "") then delete (uid_key ref old.uid) else pure tt)
    delete (object_key ref name)
    touch ref

  -- `RemoveObject` inside its transaction, and `RemoveObject`.
  unfoldable pub remove_object_in : Ref → String → Unless → String → ℕ → M (Unit {0})
  unfolding ask drop_object
  remove_object_in ref name unless by now = do
    writable ref by now
    old ← get {T = Object} (object_key ref name)
    ask unless old.etag
    drop_object ref name old

  unfoldable pub remove_object :
      Ref → String → Unless → String → ℕ → Db → Result StoreError (Unit {0}) × Db
  unfolding remove_object_in
  remove_object ref name unless by now = update (remove_object_in ref name unless by now)

  -- `Object` and `Objects`.
  unfoldable pub object : Ref → String → Db → Result StoreError Object
  object ref name = view (get {T = Object} (object_key ref name))

  unfoldable pub objects : Ref → Db → Result StoreError (List Object)
  objects ref = view (each {T = Object} (objects_of ref))
