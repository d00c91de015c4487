-- ===== src/Store/Feeds.antt =====
-- A calendar filled from a feed: `Fill` and `replace`.
pub mod Same
pub mod Unchanged
pub mod Tests
use text.Mathlib.Text.{◌==◌}
use alborz.Prelude.{
  ◌==◌ as nat_eq, ℕ, String, Bool, false, not, ◌||◌, List, [], ◌∷◌, length, Option, none, some,
  Result, if◌then◌else◌,
}
use alborz.Store.Types.{Ref, Collection, Object, Feed, StoreError, wrong_feed, ref_of_collection}
use alborz.Store.Stored.{plain, collection_codec, object_codec}
use alborz.Store.Env.{Env}
use alborz.Store.Tx.{M, Db, pure, fail, ◌>>=◌, ◌>>◌, get, put, put_raw, delete, each, update}
use alborz.Store.Names.{collection_key, object_key, uid_key, objects_of}
use alborz.Store.Collections.{stamp}

-- The map from names to objects: a later one of the same name takes an earlier one's place.
unfoldable pub hold : Object → List Object → List Object
hold o [] = o ∷ []
hold o (p ∷ ps) = if p.name == o.name then o ∷ ps else p ∷ hold o ps

unfoldable pub held_from : List Object → List Object → List Object
unfolding hold
held_from held [] = held
held_from held (o ∷ os) = held_from (hold o held) os

unfoldable pub find_held : String → List Object → Option Object
find_held name [] = none
find_held name (o ∷ os) = if o.name == name then some o else find_held name os

abbrev pub etag_of_held : Option Object → String
etag_of_held none = ""
etag_of_held (some o) = o.etag

abbrev created_at : ℕ → Option Object → ℕ
created_at now none = now
created_at now (some was) = was.created

module _ ⦃env : Env⦄ where
  -- Whether an object of the feed is other than the one held under its name.
  unfoldable pub any_differs : List Object → List Object → Bool
  unfolding find_held
  any_differs held [] = false
  any_differs held (o ∷ os) =
      not (etag_of_held (find_held o.name held) == env.etag_of o.bytes) || any_differs held os

  unfoldable pub has_changed : List Object → List Object → Bool
  unfolding any_differs
  has_changed held objects = not (nat_eq (length held) (length objects)) || any_differs held objects

  -- The loop over what was held.
  unfoldable pub clear_held : Ref → List Object → M (Unit {0})
  clear_held ref [] = pure tt
  clear_held ref (o ∷ os) = do
    delete (object_key ref o.name)
    delete (uid_key ref o.uid)
    clear_held ref os

  abbrev pub as_filled : List Object → ℕ → Object → Object
  as_filled held now o = record o {
    etag = env.etag_of o.bytes;
    modified = now;
    created = created_at now (find_held o.name held);
  }

  -- The loop over the feed's objects.
  unfoldable pub put_filled : Ref → List Object → ℕ → List Object → M (Unit {0})
  unfolding find_held
  put_filled ref held now [] = pure tt
  put_filled ref held now (o ∷ os) = do
    put (object_key ref o.name) (as_filled held now o)
    put_raw (uid_key ref o.uid) (plain o.name)
    put_filled ref held now os

  -- `replace`: the collection as it is afterwards.
  unfoldable pub replace : Collection → List Object → ℕ → M Collection
  unfolding held_from has_changed clear_held put_filled
  replace c objects now = do
    stored ← each {T = Object} (objects_of (ref_of_collection c))
    let held = held_from [] stored
    if not (has_changed held objects) then pure c else do
      clear_held (ref_of_collection c) held
      put_filled (ref_of_collection c) held now objects
      stamp c

  abbrev pub filled_by : Option Feed → Feed → Option Feed
  filled_by none feed = none
  filled_by (some was) feed =
      if was.url == feed.url then some (record feed { named = was.named }) else none

  -- Nil objects keep those held.
  unfoldable pub replace_if : Collection → Option (List Object) → ℕ → M Collection
  unfolding replace
  replace_if c none now = pure c
  replace_if c (some objects) now = replace c objects now

  -- `Fill` inside its transaction, and `Fill`.
  unfoldable pub fill_in : Ref → Feed → Option (List Object) → ℕ → M (Unit {0})
  unfolding replace_if
  fill_in ref feed objects now = do
    c ← get {T = Collection} (collection_key ref)
    elim (filled_by c.feed feed) [
      | none ↦ fail wrong_feed
      | some kept ↦ do
        c' ← replace_if (record c { feed = some kept }) objects now
        put (collection_key ref) c'
    ]

  unfoldable pub fill :
      Ref → Feed → Option (List Object) → ℕ → Db → Result StoreError (Unit {0}) × Db
  unfolding fill_in
  fill ref feed objects now = update (fill_in ref feed objects now)
