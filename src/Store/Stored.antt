-- ===== src/Store/Stored.antt =====
-- What the data file holds under a key, and how each type of record is written and read.
use alborz.Prelude.{ℕ, String, Option, none, some, ◌≡◌, refl}
use alborz.Store.Types.{Collection, Object, Share, Ref, Dropped}
use alborz.Store.Keys.{Key}

-- What stands under a key: a record's JSON, a text, the key of another record, or the counter.
pub data Stored : Type 0 where
  collection : Collection → Stored
  object : Object → Stored
  share : Share → Stored
  ref : Ref → Stored
  dropped : Dropped → Stored
  plain : String → Stored
  key_text : Key → Stored
  number : ℕ → Stored

-- A type that encoding/json writes and reads: what it wrote as this type it reads back, and it
-- reads nothing else.
pub record Codec (T : Type 0) : Type 0 where
  pub encode : T → Stored
  pub decode : Stored → Option T
  pub decode_encode : (x : T) → decode (encode x) ≡ some x
  pub of_decode : (s : Stored) (x : T) → decode s ≡ some x → s ≡ encode x

abbrev pub as_collection : Stored → Option Collection
as_collection (collection c) = some c
as_collection _ = none

pub collection_of : (s : Stored) (c : Collection) → as_collection s ≡ some c → s ≡ collection c
collection_of (collection c) d h = cc
collection_of _ d h = cc

instance abbrev pub collection_codec : Codec Collection
collection_codec = record {
  encode = collection;
  decode = as_collection;
  decode_encode = λ c. refl;
  of_decode = collection_of;
}

abbrev pub as_object : Stored → Option Object
as_object (object o) = some o
as_object _ = none

pub object_of : (s : Stored) (o : Object) → as_object s ≡ some o → s ≡ object o
object_of (object o) d h = cc
object_of _ d h = cc

instance abbrev pub object_codec : Codec Object
object_codec = record {
  encode = object;
  decode = as_object;
  decode_encode = λ o. refl;
  of_decode = object_of;
}

abbrev pub as_share : Stored → Option Share
as_share (share sh) = some sh
as_share _ = none

pub share_of : (s : Stored) (sh : Share) → as_share s ≡ some sh → s ≡ share sh
share_of (share sh) d h = cc
share_of _ d h = cc

instance abbrev pub share_codec : Codec Share
share_codec = record {
  encode = share;
  decode = as_share;
  decode_encode = λ sh. refl;
  of_decode = share_of;
}

abbrev pub as_ref : Stored → Option Ref
as_ref (ref r) = some r
as_ref _ = none

pub ref_of : (s : Stored) (r : Ref) → as_ref s ≡ some r → s ≡ ref r
ref_of (ref r) d h = cc
ref_of _ d h = cc

instance abbrev pub ref_codec : Codec Ref
ref_codec = record { encode = ref; decode = as_ref; decode_encode = λ r. refl; of_decode = ref_of }

abbrev pub as_dropped : Stored → Option Dropped
as_dropped (dropped d) = some d
as_dropped _ = none

pub dropped_of : (s : Stored) (d : Dropped) → as_dropped s ≡ some d → s ≡ dropped d
dropped_of (dropped d) e h = cc
dropped_of _ e h = cc

instance abbrev pub dropped_codec : Codec Dropped
dropped_codec = record {
  encode = dropped;
  decode = as_dropped;
  decode_encode = λ d. refl;
  of_decode = dropped_of;
}
