-- ===== src/Store/Types.antt =====
-- The records of store.go. Bytes and texts are native texts; a time is the number of its instant,
-- and 0 is Go's zero time.
use alborz.Prelude.{ℕ, String, Bool, true, false, ◌&&◌, ◌||◌, List, Option, ltb, ◌==◌}

pub data Kind : Type 0 where
  calendar address_book : Kind

pub record Ref : Type 0 where
  pub owner : String
  pub id : String

pub record Dead : Type 0 where
  pub space : String
  pub local : String
  pub xml : String

pub record Feed : Type 0 where
  pub url : String
  pub etag : String
  pub last_modified : String
  pub fetched : ℕ
  pub every : ℕ
  pub named : ℕ

pub record Collection : Type 0 where
  pub id : String
  pub owner : String
  pub kind : Kind
  pub components : List String
  pub name : String
  pub color : String
  pub description : String
  pub ctag : ℕ
  pub public : String
  pub timezone : String
  pub dead : List Dead
  pub feed : Option Feed

pub record Dropped : Type 0 where
  pub id : String
  pub url : String
  pub at : ℕ

pub record Object : Type 0 where
  pub name : String
  pub uid : String
  pub bytes : String
  pub etag : String
  pub modified : ℕ
  pub creator : String
  pub created : ℕ
  pub editor : String

pub record Share : Type 0 where
  pub owner : String
  pub collection : String
  pub to : String
  pub write : Bool
  pub expires : ℕ
  pub accepted : Bool
  pub created : ℕ
  pub declined : Bool
  pub left : Bool
  pub answered : ℕ

abbrev pub ref_of_collection : Collection → Ref
ref_of_collection c = record { owner = c.owner; id = c.id }

abbrev pub ref_of_share : Share → Ref
ref_of_share sh = record { owner = sh.owner; id = sh.collection }

-- `Live`.
unfoldable pub live : Share → ℕ → Bool
live sh now = sh.accepted && (sh.expires == 0 || ltb now sh.expires)

-- What an account may do, from least to most.
pub data Access : Type 0 where
  none_at_all read write own : Access

-- `may < write` is the negation of this.
abbrev pub can_write : Access → Bool
can_write none_at_all = false
can_write read = false
can_write write = true
can_write own = true

unfoldable pub access_of : Share → Access
access_of sh = elim sh.write [ true ↦ write | false ↦ read ]

pub data SealError : Type 0 where
  locked cannot_open : SealError

pub data StoreError : Type 0 where
  not_found exists forbidden precondition uid_conflict bad_json bad_number wrong_feed : StoreError
  sealed : SealError → StoreError
