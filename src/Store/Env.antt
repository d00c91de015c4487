-- ===== src/Store/Env.antt =====
-- What the store takes from elsewhere.
use alborz.Prelude.{String, Bool, Option, Result}
use alborz.Store.Types.{SealError}
use alborz.Store.Keys.{Key}

-- A collection's scope: the keyed names of its owner and of itself.
abbrev pub Scope : Type 0
Scope = String × String

-- What the store takes from elsewhere: the standard library, the keyed names of internal/seal, and
-- the keys of collections, which sealed.go and internal/keyring hold. `Held` is what those know
-- within one transaction.
pub record Env : Type 1 where
  pub Held : Type 0
  -- `strings.ToLower`.
  pub lower : String → String
  -- `names.Of`.
  pub name_of : String → String
  -- `ETagOf`, a hash.
  pub etag_of : String → String
  -- `ring.Name` and `ring.On`.
  pub ring_name : String → String
  pub ring_on : Held → String → Bool
  -- Why the value under a key does not open, and why none can be sealed there.
  pub opens : Held → Key → Option SealError
  pub seals : Held → Key → Option SealError
  -- `keyed(tx)`'s operations on a collection's own key.
  pub encrypt : Scope → String → Held → Result SealError Held
  pub public_wrap : Scope → Bool → Held → Result SealError Held
  pub wrap_to : Scope → String → Held → Result SealError Held
  pub unwrap_from : Scope → String → Held → Result SealError Held
  pub drop_key : Scope → Held → Result SealError Held
  -- A transaction begins with nothing opened yet.
  pub afresh : Held → Held
