-- ===== src/Record.antt =====
-- internal/record/record.go: a stored record is rewritten with the fields that a newer version
-- added. Bytes are read and written by encoding/json, which is a parameter.
pub mod Values
pub mod Strip
pub mod Graft
pub mod Keep
pub mod Written
pub mod Bytes
mod Tests
use alborz.Prelude.{String, Bool, Option, none, some, Result, ok, err, ◌>>=◌, if◌then◌else◌}
use Values.{Json, Fields, nil, field, object, null, fields_of, lookup, get_or_null, insert}

-- The end of `strip`: an empty map is returned as nil.
abbrev pub unless_empty : Fields → Option Json
unless_empty nil = none
unless_empty (field name value rest) = some (object (field name value rest))

abbrev pub add_inner : String → Option Json → Fields → Fields
add_inner key none others = others
add_inner key (some inner) others = field key inner others

unfoldable mutual
  -- What `stored` has that `understood` does not, or `none` for Go's nil.
  pub strip : Json → Json → Option Json
  strip (object s) understood = unless_empty (strip_fields s (fields_of understood))
  strip _ understood = none

  -- The loop over the stored fields.
  pub strip_fields : Fields → Fields → Fields
  strip_fields nil u = nil
  strip_fields (field key value rest) u = elim (lookup key u) [
    | none ↦ field key value (strip_fields rest u)
    | some known ↦ add_inner key (strip value known) (strip_fields rest u)
  ]

unfoldable mutual
  -- `unknown` put back into `written`, less the names that `understood` has and `written` dropped.
  pub graft : Json → Json → Json → Json
  graft (object w) (object u) understood = object (graft_fields w u (fields_of understood))
  graft written _ understood = written

  -- The loop over the unknown fields.
  pub graft_fields : Fields → Fields → Fields → Fields
  graft_fields w nil known = w
  graft_fields w (field key value rest) known = elim (lookup key w) [
    | some have ↦
        graft_fields (insert key (graft have value (get_or_null (lookup key known))) w) rest known
    | none ↦ elim (lookup key known) [
      | some dropped ↦ graft_fields w rest known
      | none ↦ graft_fields (insert key value w) rest known
    ]
  ]

-- What `Keep` writes, from the decoded values.
unfoldable pub merge : Json → Json → Json → Json
merge stored understood written = elim (strip stored understood) [
  | none ↦ written
  | some unknown ↦ graft written unknown understood
]

pub data JsonError : Type 0 where
  json_failed : JsonError

-- What encoding/json does for a type `T`: `none` is an error. `decode` is its decoder with
-- `UseNumber`, `encode` is `json.Marshal` of a decoded value.
pub record Coding (T : Type 0) : Type 1 where
  pub Bytes : Type 0
  pub is_empty : Bytes → Bool
  pub marshal : T → Option Bytes
  pub unmarshal : Bytes → Option T
  pub decode : Bytes → Option Json
  pub encode : Json → Option Bytes

abbrev pub or_fail {ℓ} : {A : Type ℓ} → Option A → Result JsonError A
or_fail none = err json_failed
or_fail (some a) = ok a

module _ {T : Type 0} (c : Coding T) where
  open c use {Bytes, is_empty, marshal, unmarshal, decode, encode}

  -- `Keep` from where the stored bytes have been understood.
  unfoldable pub keep_understood : Json → Json → Bytes → Result JsonError Bytes
  keep_understood stored understood fresh = elim (strip stored understood) [
    | none ↦ ok fresh
    | some unknown ↦ do
      written ← or_fail (decode fresh)
      or_fail (encode (graft written unknown understood))
  ]

  unfoldable pub keep_over : Bytes → Bytes → Result JsonError Bytes
  unfolding keep_understood
  keep_over old fresh = elim (decode old) [
    | none ↦ ok fresh
    | some stored ↦ elim (unmarshal old) [
      | none ↦ ok fresh
      | some known ↦ do
        seen ← or_fail (marshal known)
        understood ← or_fail (decode seen)
        keep_understood stored understood fresh
    ]
  ]

  unfoldable pub keep : Bytes → T → Result JsonError Bytes
  unfolding keep_over
  keep old v = elim (marshal v) [
    | none ↦ err json_failed
    | some fresh ↦ if is_empty old then ok fresh else keep_over old fresh
  ]
