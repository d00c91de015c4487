-- ===== src/Store/Collections.antt =====
-- Making, changing and deleting a collection.
pub mod Stamp
use text.Mathlib.Text.{◌==◌}
use alborz.Prelude.{
  ◌==◌ as nat_eq, ℕ, ◌+◌, ◌%◌, ◌^◌, String, Bool, true, false, not, ◌&&◌, ◌||◌, List, [], ◌∷◌, ◌++◌,
  map, Option, none, some, Result, if◌then◌else◌,
}
use alborz.Store.Types.{
  Kind, calendar, Ref, Collection, Dropped, Share, Feed, StoreError, ref_of_collection, exists,
  bad_number,
}
use alborz.Store.Keys.{Key}
use alborz.Store.Stored.{Stored, number, key_text, collection_codec, share_codec, dropped_codec}
use alborz.Store.Env.{Env, Scope}
use alborz.Store.Tx.{
  M, Db, pure, fail, ◌>>=◌, ◌>>◌, get, get_raw, put, put_raw, delete, scan, each, on_keys, ring_on,
  update, view,
}
use alborz.Store.Names.{
  scope_of, collection_key, share_key, public_key, received_key, dropped_key, collections_of,
  objects_of, shares_of, uids_of,
}

-- `uint64`.
abbrev pub u64 : ℕ → ℕ
u64 n = n % 2 ^ 64

module _ ⦃env : Env⦄ where
  -- `change`: the answer of `write`, and the accounts that the watchers are told of, which see the
  -- collection before the write and after.
  unfoldable pub change : {A : Type 0} → Ref → M A → M (A × List String)
  change ref write = do
    before ← each {T = Share} (shares_of ref)
    a ← write
    after ← each {T = Share} (shares_of ref)
    pure (a, ref.owner ∷ map (λ sh. sh.to) before ++ map (λ sh. sh.to) after)

  -- `strconv.ParseUint` of the counter, 0 where there is none.
  unfoldable pub last_ctag : Option Stored → M ℕ
  last_ctag none = pure 0
  last_ctag (some (number n)) = pure n
  last_ctag (some _) = fail bad_number

  -- `stamp`: the collection as it is afterwards.
  unfoldable pub stamp : Collection → M Collection
  unfolding last_ctag
  stamp c = do
    raw ← get_raw Key.ctag
    last ← last_ctag raw
    let next = u64 (last + 1)
    put_raw Key.ctag (number next)
    pure (record c { ctag = next })

  unfoldable pub touch : Ref → M (Unit {0})
  touch ref = do
    c ← get {T = Collection} (collection_key ref)
    c' ← stamp c
    put (collection_key ref) c'

  -- `publish`: `before` is the secret that the collection had.
  unfoldable pub publish : String → Collection → M (Unit {0})
  publish before c = do
    (if not (c.id == "")
        then on_keys (env.public_wrap (scope_of (ref_of_collection c)) (not (c.public == "")))
        else pure tt)
    (if not (before == "") && not (before == c.public) then delete (public_key before) else pure tt)
    if c.public == ""
        then pure tt
        else put_raw (public_key c.public) (key_text (collection_key (ref_of_collection c)))

  -- `Create` inside its transaction, and `Create`; `fresh` is the name that `uuid.New` would give.
  unfoldable pub create_in : Collection → M Collection
  create_in c = do
    held ← get_raw (collection_key (ref_of_collection c))
    elim held [
      | some there ↦ fail exists
      | none ↦ do
        on ← ring_on (env.ring_name c.owner)
        (if on
            then on_keys (env.encrypt (scope_of (ref_of_collection c)) (env.ring_name c.owner))
            else pure tt)
        c' ← stamp c
        put (collection_key (ref_of_collection c)) c'
        delete (dropped_key (ref_of_collection c))
        publish "" c'
        pure c'
    ]

  abbrev pub named_for : Collection → String → Collection
  named_for c fresh = record c {
    id = if c.id == "" then fresh else c.id;
    owner = env.lower c.owner;
  }

  unfoldable pub create :
      Collection → String → Db → Result StoreError (Collection × List String) × Db
  unfolding change create_in
  create c fresh =
      update (change (ref_of_collection (named_for c fresh)) (create_in (named_for c fresh)))

  abbrev named_at : Option Feed → ℕ
  named_at none = 0
  named_at (some feed) = feed.named

  -- A fed calendar's new name or colour is dated, unless the change dates it.
  unfoldable pub dated : Collection → Collection → ℕ → Collection
  dated was c now = elim c.feed [
    | none ↦ c
    | some feed ↦
        if (not (c.name == was.name) || not (c.color == was.color))
          && nat_eq feed.named (named_at was.feed)
        then record c { feed = some (record feed { named = now }) }
        else c
  ]

  unfoldable pub update_in : Ref → (Collection → Collection) → ℕ → M (Unit {0})
  unfolding dated
  update_in ref change now = do
    c ← get {T = Collection} (collection_key ref)
    c' ← stamp (dated c (change c) now)
    put (collection_key ref) c'
    publish c.public c'

  -- `Update`.
  unfoldable pub update_collection :
      Ref → (Collection → Collection) → ℕ → Db → Result StoreError (Unit {0} × List String) × Db
  unfolding change update_in
  update_collection ref f now = update (change ref (update_in ref f now))
