-- ===== src/Store/Access.antt =====
-- Who may do what: `allowed`, `writable`, `may` and `Visible`.
pub mod Sound
use text.Mathlib.Text.{◌==◌}
use alborz.Prelude.{
  ℕ, String, Bool, true, false, not, ◌||◌, List, [], ◌∷◌, ◌++◌, Option, none, some, Result,
  if◌then◌else◌,
}
use alborz.Store.Types.{
  Feed, StoreError, Ref, Collection, Share, Access, own, live, access_of, can_write, not_found,
  forbidden,
}
use alborz.Store.Stored.{collection_codec, share_codec}
use alborz.Store.Env.{Env}
use alborz.Store.Tx.{M, Db, pure, fail, ◌>>=◌, ◌>>◌, get, find, each, view}
use alborz.Store.Names.{collection_key, share_key, collections_of, received_by}

module _ ⦃env : Env⦄ where
  unfoldable pub allowed : Ref → String → ℕ → M (Collection × Access)
  allowed ref account now = do
    c ← get {T = Collection} (collection_key ref)
    if c.owner == account then pure (c, own) else do
      sh ← get {T = Share} (share_key ref account)
      if not (live sh now) then fail not_found else pure (c, access_of sh)

  unfoldable pub may : Ref → String → ℕ → Db → Result StoreError (Collection × Access)
  may ref account now = view (allowed ref account now)

  abbrev pub is_fed : Option Feed → Bool
  is_fed none = false
  is_fed (some feed) = true

  -- Only who may write, and never into a calendar that a feed fills.
  unfoldable pub writable : Ref → String → ℕ → M (Unit {0})
  unfolding allowed
  writable ref by now = do
    (c, may) ← allowed ref (env.lower by) now
    if not (can_write may) || is_fed c.feed then fail forbidden else pure tt
