-- ===== src/Store/Seen.antt =====
-- What an account sees: `Visible`, `ByPublic`, `Shares` and `Collection`.
use text.Mathlib.Text.{◌==◌}
use alborz.Prelude.{
  ℕ, String, Bool, true, false, not, List, [], ◌∷◌, ◌++◌, none, some, Result, if◌then◌else◌,
}
use alborz.Store.Types.{
  Kind, calendar, address_book, Ref, Collection, Share, Access, own, live, access_of, StoreError,
  not_found,
}
use alborz.Store.Stored.{key_text, collection_codec, share_codec, ref_codec}
use alborz.Store.Env.{Env}
use alborz.Store.Tx.{M, Db, pure, fail, ◌>>=◌, get, get_raw, find, each, view}
use alborz.Store.Names.{
  collection_key, share_key, public_key, collections_of, received_by, all_shares,
}

-- `c.Kind == kind`.
abbrev pub is_kind : Kind → Kind → Bool
is_kind calendar calendar = true
is_kind address_book address_book = true
is_kind _ _ = false

-- `Seen`.
abbrev pub Seen : Type 0
Seen = Collection × Access

abbrev own_of_kind : Kind → List Collection → List Seen
own_of_kind kind [] = []
own_of_kind kind (c ∷ cs) =
    if is_kind c.kind kind then (c, own) ∷ own_of_kind kind cs else own_of_kind kind cs

module _ ⦃env : Env⦄ where
  -- A share's collection, where the share is live and both are there.
  unfoldable pub see_shared : String → Kind → ℕ → Ref → M (List Seen)
  see_shared account kind now ref = do
    shared ← find {T = Share} (share_key ref account)
    elim shared [
      | none ↦ pure []
      | some sh ↦ if not (live sh now) then pure [] else do
        held ← find {T = Collection} (collection_key ref)
        elim held [
          | none ↦ pure []
          | some c ↦ pure (if is_kind c.kind kind then (c, access_of sh) ∷ [] else [])
        ]
    ]

  unfoldable pub see_all_shared : String → Kind → ℕ → List Ref → M (List Seen)
  unfolding see_shared
  see_all_shared account kind now [] = pure []
  see_all_shared account kind now (ref ∷ refs) = do
    seen ← see_shared account kind now ref
    rest ← see_all_shared account kind now refs
    pure (seen ++ rest)

  -- `Visible` before it sorts by name.
  unfoldable pub visible_in : String → Kind → ℕ → M (List Seen)
  unfolding see_all_shared
  visible_in account kind now = do
    cs ← each {T = Collection} (collections_of account)
    refs ← each {T = Ref} (received_by account)
    shared ← see_all_shared account kind now refs
    pure (own_of_kind kind cs ++ shared)

  unfoldable pub visible : String → Kind → ℕ → Db → Result StoreError (List Seen)
  unfolding visible_in
  visible account kind now = view (visible_in (env.lower account) kind now)

  -- `ByPublic`.
  unfoldable pub by_public_in : String → M Collection
  by_public_in secret = do
    held ← get_raw (public_key secret)
    if secret == ""
        then fail not_found
        else elim held [ some (key_text k) ↦ get {T = Collection} k | _ ↦ fail not_found ]

  unfoldable pub by_public : String → Db → Result StoreError Collection
  unfolding by_public_in
  by_public secret = view (by_public_in secret)

  abbrev pub matching : (Share → Bool) → List Share → List Share
  matching keep [] = []
  matching keep (sh ∷ shares) = if keep sh then sh ∷ matching keep shares else matching keep shares

  -- `Shares` before it sorts by receiver.
  unfoldable pub shares : (Share → Bool) → Db → Result StoreError (List Share)
  shares keep = view (do all ← each {T = Share} all_shares; pure (matching keep all))

  -- `Collection`.
  unfoldable pub collection : Ref → Db → Result StoreError Collection
  collection ref = view (get {T = Collection} (collection_key ref))
