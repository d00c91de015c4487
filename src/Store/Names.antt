-- ===== src/Store/Names.antt =====
-- The methods of `keys`: which key a record stands under, and which keys a prefix takes in.
use text.Mathlib.Text.{◌==◌}
use alborz.Prelude.{String, Bool, true, false, ◌&&◌}
use alborz.Store.Types.{Ref}
use alborz.Store.Keys.{Key}
use alborz.Store.Env.{Env, Scope}

module _ ⦃env : Env⦄ where
  -- A name as it stands in a key, and an account's, whose case does not count.
  abbrev pub owner_part : String → String
  owner_part account = env.name_of (env.lower account)

  -- `keys.ref`.
  abbrev pub scope_of : Ref → Scope
  scope_of ref = (owner_part ref.owner, env.name_of ref.id)

  abbrev pub collection_key : Ref → Key
  collection_key ref = Key.collection (owner_part ref.owner) (env.name_of ref.id)

  abbrev pub object_key : Ref → String → Key
  object_key ref name = Key.object (owner_part ref.owner) (env.name_of ref.id) (env.name_of name)

  abbrev pub share_key : Ref → String → Key
  share_key ref to = Key.share (owner_part ref.owner) (env.name_of ref.id) (owner_part to)

  abbrev pub uid_key : Ref → String → Key
  uid_key ref uid = Key.uid (owner_part ref.owner) (env.name_of ref.id) (env.name_of uid)

  abbrev pub public_key : String → Key
  public_key secret = Key.public (env.name_of secret)

  abbrev pub received_key : String → Ref → Key
  received_key to ref = Key.received (owner_part to) (owner_part ref.owner) (env.name_of ref.id)

  abbrev pub dropped_key : Ref → Key
  dropped_key ref = Key.dropped (owner_part ref.owner) (env.name_of ref.id)

  abbrev in_scope : Scope → String → String → Bool
  in_scope s owner id = owner == s.0 && id == s.1

  -- The keys that begin with `collectionsOf(owner)`, and so for the other prefixes.
  unfoldable pub collections_of : String → Key → Bool
  collections_of owner (Key.collection o i) = o == owner_part owner
  collections_of owner _ = false

  unfoldable pub objects_of : Ref → Key → Bool
  objects_of ref (Key.object o i n) = in_scope (scope_of ref) o i
  objects_of ref _ = false

  unfoldable pub shares_of : Ref → Key → Bool
  shares_of ref (Key.share o i to) = in_scope (scope_of ref) o i
  shares_of ref _ = false

  unfoldable pub uids_of : Ref → Key → Bool
  uids_of ref (Key.uid o i u) = in_scope (scope_of ref) o i
  uids_of ref _ = false

  unfoldable pub received_by : String → Key → Bool
  received_by to (Key.received t o i) = t == owner_part to
  received_by to _ = false

  unfoldable pub dropped_of : String → Key → Bool
  dropped_of owner (Key.dropped o i) = o == owner_part owner
  dropped_of owner _ = false

  -- The prefixes that end before any owner.
  unfoldable pub all_collections : Key → Bool
  all_collections (Key.collection o i) = true
  all_collections _ = false

  unfoldable pub all_shares : Key → Bool
  all_shares (Key.share o i to) = true
  all_shares _ = false
