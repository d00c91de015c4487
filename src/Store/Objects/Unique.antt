-- ===== src/Store/Objects/Unique.antt =====
-- The objects of a collection over any run of writes and removals.
use alborz.Prelude.{ℕ, String, true, List, [], ◌∷◌, Option, none, some, ◌≡◌, ◌≢◌, refl, ap, ◌∙◌}
use alborz.Store.Types.{Ref, Object}
use alborz.Store.Keys.{Key}
use alborz.Store.Stored.{Stored}
use alborz.Store.Rows.{lookup}
use alborz.Store.Env.{Env}
use alborz.Store.Tx.{Db, begin}
use alborz.Store.Tx.Laws.{update-keeps}
use alborz.Store.Objects.{
  Unless, made_by, new_object, put_object, put_object_in, remove_object, remove_object_in,
}
use alborz.Store.Objects.Run.{put_object_in-Puts, remove_object_in-Removes}
use alborz.Store.Objects.Uids.{UidIndexed, UidIndexed-unique, Writes-UidIndexed}
use alborz.Store.Objects.Unindex.{Removes-UidIndexed}

-- A call of `PutObject` or `RemoveObject`.
pub data Call : Type 0 where
  puts : (ref : Ref) (name uid bytes : String) (unless : Unless) (by : String) (now : ℕ) → Call
  removes : (ref : Ref) (name : String) (unless : Unless) (by : String) (now : ℕ) → Call

module _ ⦃env : Env⦄ where
  -- The data file after the calls, each of which may fail.
  unfoldable pub after_calls : List Call → Db → Db
  after_calls [] db = db
  after_calls (puts ref name uid bytes unless by now ∷ calls) db =
      after_calls calls (put_object ref name uid bytes unless by now db).1
  after_calls (removes ref name unless by now ∷ calls) db =
      after_calls calls (remove_object ref name unless by now db).1

  made_by-name :
      (old : Option Object) (name uid bytes by : String) (now : ℕ)
      → (made_by old (new_object name uid bytes by now)).name ≡ name
  made_by-name none name uid bytes by now = refl
  made_by-name (some old) name uid bytes by now = refl

  module _ (name_of_injective : (a b : String) → env.name_of a ≡ env.name_of b → a ≡ b) where
    put_object-UidIndexed :
        (ref : Ref) (name uid bytes : String) (unless : Unless) (by : String) (now : ℕ) (db : Db)
        (owner id : String)
        → UidIndexed db.rows owner id
        → UidIndexed (put_object ref name uid bytes unless by now db).1.rows owner id
    unfolding put_object
    put_object-UidIndexed ref name uid bytes unless by now db owner id =
        update-keeps (λ rows. UidIndexed rows owner id)
          (put_object_in ref name uid bytes unless by now) db
          (λ o u ran i.
            let puts =
              put_object_in-Puts ref name uid bytes unless by now (begin true db) refl ran in
            Writes-UidIndexed name_of_injective owner id
              (ap (λ x. x.name) puts.answer ∙ made_by-name puts.old name uid bytes by now)
              puts.writes i)

    remove_object-UidIndexed :
        (ref : Ref) (name : String) (unless : Unless) (by : String) (now : ℕ) (db : Db)
        (owner id : String)
        → UidIndexed db.rows owner id
        → UidIndexed (remove_object ref name unless by now db).1.rows owner id
    unfolding remove_object
    remove_object-UidIndexed ref name unless by now db owner id =
        update-keeps (λ rows. UidIndexed rows owner id) (remove_object_in ref name unless by now) db
          (λ o u ran i.
            Removes-UidIndexed name_of_injective owner id
              (remove_object_in-Removes ref name unless by now (begin true db) refl ran) i)

    -- The index of UIDs stays right: whichever calls are made and whichever of them fail, every
    -- object still stands under its own name and the entry of its UID still leads to it. The
    -- keyed names of `names.Of` must not collide.
    pub after_calls-UidIndexed :
        (calls : List Call) (db : Db) (owner id : String)
        → UidIndexed db.rows owner id
        → UidIndexed (after_calls calls db).rows owner id
    unfolding after_calls
    after_calls-UidIndexed [] db owner id i = i
    after_calls-UidIndexed (puts ref name uid bytes unless by now ∷ calls) db owner id i =
        after_calls-UidIndexed calls _ owner id
          (put_object-UidIndexed ref name uid bytes unless by now db owner id i)
    after_calls-UidIndexed (removes ref name unless by now ∷ calls) db owner id i =
        after_calls-UidIndexed calls _ owner id
          (remove_object-UidIndexed ref name unless by now db owner id i)

    -- From a right index, after any run of writes and removals, failed ones included, two objects
    -- of a collection with one UID that is not empty are one object: they stand under one key. The
    -- keyed names of `names.Of` must not collide.
    pub uids_differ :
        (calls : List Call) (db : Db) (owner id n m : String) (o p : Object)
        → UidIndexed db.rows owner id
        → lookup (Key.object owner id n) (after_calls calls db).rows ≡ some (Stored.object o)
        → lookup (Key.object owner id m) (after_calls calls db).rows ≡ some (Stored.object p)
        → o.uid ≡ p.uid
        → o.uid ≢ ""
        → n ≡ m
    uids_differ calls db owner id n m o p i =
        UidIndexed-unique (after_calls calls db).rows owner id n m o p
          (after_calls-UidIndexed calls db owner id i)
