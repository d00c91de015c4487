-- ===== src/Store/Removal.antt =====
-- Deleting a collection, and what the store still says of a deleted one.
pub mod Scans
pub mod Gone
use alborz.Prelude.{ℕ, String, Bool, true, false, List, [], ◌∷◌, ◌++◌, Option, none, some, Result}
use alborz.Store.Types.{calendar, Ref, Collection, Dropped, Share, Feed, StoreError}
use alborz.Store.Keys.{Key}
use alborz.Store.Stored.{Stored, collection_codec, share_codec, dropped_codec}
use alborz.Store.Env.{Env}
use alborz.Store.Tx.{M, Db, pure, ◌>>=◌, ◌>>◌, get, put, delete, scan, each, on_keys, update, view}
use alborz.Store.Names.{
  scope_of, collection_key, share_key, received_key, dropped_key, collections_of, objects_of,
  shares_of, uids_of, dropped_of, all_collections,
}
use alborz.Store.Collections.{change, publish}

-- `Collection{}`.
abbrev pub no_collection : Collection
no_collection = record {
  id = "";
  owner = "";
  kind = calendar;
  components = [];
  name = "";
  color = "";
  description = "";
  ctag = 0;
  public = "";
  timezone = "";
  dead = [];
  feed = none;
}

module _ ⦃env : Env⦄ where
  unfoldable pub delete_keys : List Key → M (Unit {0})
  unfolding delete
  delete_keys [] = pure tt
  delete_keys (k ∷ keys) = do delete k; delete_keys keys

  abbrev pub keys_of : List (Key × Stored) → List Key
  keys_of [] = []
  keys_of ((k, v) ∷ rows) = k ∷ keys_of rows

  -- The keys of each share and of what its receiver holds of it.
  abbrev pub share_keys : Ref → List Share → List Key
  share_keys ref [] = []
  share_keys ref (sh ∷ shares) =
      share_key ref sh.to ∷ received_key sh.to ref ∷ share_keys ref shares

  -- A fed calendar leaves a `Dropped` behind.
  unfoldable pub leave_dropped : Ref → Option Feed → ℕ → M (Unit {0})
  leave_dropped ref none now = pure tt
  leave_dropped ref (some feed) now =
      put {T = Dropped} (dropped_key ref) (record { id = ref.id; url = feed.url; at = now })

  -- The end of `Delete`.
  unfoldable pub clear_collection : Ref → M (Unit {0})
  unfolding delete_keys
  clear_collection ref = do
    objects ← scan (objects_of ref)
    uids ← scan (uids_of ref)
    shares ← each {T = Share} (shares_of ref)
    delete_keys
        (keys_of objects ++ (keys_of uids ++ (share_keys ref shares ++ collection_key ref ∷ [])))
    on_keys (env.drop_key (scope_of ref))

  -- `Delete` inside its transaction, and `Delete`.
  unfoldable pub delete_in : Ref → ℕ → M (Unit {0})
  unfolding leave_dropped clear_collection
  delete_in ref now = do
    c ← get {T = Collection} (collection_key ref)
    publish c.public no_collection
    leave_dropped ref c.feed now
    clear_collection ref

  unfoldable pub delete_collection : Ref → ℕ → Db → Result StoreError (Unit {0} × List String) × Db
  unfolding change delete_in
  delete_collection ref now = update (change ref (delete_in ref now))

  -- `Told`, `Dropped` and `Feeds`.
  unfoldable pub told : Ref → Db → Result StoreError (Unit {0}) × Db
  told ref = update (delete (dropped_key ref))

  unfoldable pub dropped : String → Db → Result StoreError (List Dropped)
  dropped owner = view (each {T = Dropped} (dropped_of owner))

  abbrev pub fed_only : List Collection → List Collection
  fed_only [] = []
  fed_only (c ∷ cs) = elim c.feed [ none ↦ fed_only cs | some feed ↦ c ∷ fed_only cs ]

  unfoldable pub feeds : Db → Result StoreError (List Collection)
  feeds = view (do cs ← each {T = Collection} all_collections; pure (fed_only cs))

  -- `Keeps`.
  unfoldable pub keeps : String → Db → Result StoreError Bool
  keeps owner =
      view
        (do rows ← scan (collections_of owner); pure (elim rows [ [] ↦ false | row ∷ rest ↦ true ]))
