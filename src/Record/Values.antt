-- ===== src/Record/Values.antt =====
-- JSON values as encoding/json decodes them: a map is a list of fields, of which the first of a
-- name counts.
use text.Mathlib.Text.{◌==◌}
use alborz.Prelude.{
  String, Bool, List, [], ◌∷◌, Option, none, some, ◌≡◌, refl, arith, eq_iff, if◌then◌else◌,
}

mutual
  pub data Json : Type 0 where
    null : Json
    boolean : Bool → Json
    -- A number stays its text, as `UseNumber` keeps it.
    number : String → Json
    string : String → Json
    array : Items → Json
    object : Fields → Json

  pub data Items : Type 0 where
    none_left : Items
    item : Json → Items → Items

  pub data Fields : Type 0 where
    nil : Fields
    field : String → Json → Fields → Fields

-- `m[key]` with its `ok`.
unfoldable pub lookup : String → Fields → Option Json
lookup key nil = none
lookup key (field name value rest) = if name == key then some value else lookup key rest

-- `m[key]` of a map of `any`: nil, which is a null, for a missing key.
abbrev pub get_or_null : Option Json → Json
get_or_null none = null
get_or_null (some v) = v

-- `v.(map[string]any)`; what is no object has no fields.
abbrev pub fields_of : Json → Fields
fields_of (object fs) = fs
fields_of _ = nil

-- `m[key] = value`.
unfoldable pub insert : String → Json → Fields → Fields
insert key value nil = field key value nil
insert key value (field name old rest) =
    if name == key then field key value rest else field name old (insert key value rest)

pub lookup-insert :
    (key j : String) (value : Json) (fs : Fields)
    → lookup j (insert key value fs) ≡ (if key == j then some value else lookup j fs)
unfolding lookup insert
lookup-insert key j value nil = refl
lookup-insert key j value (field name old rest) =
    ground (arith, eq_iff key j, eq_iff name key, eq_iff name j, lookup-insert key j value rest)

-- Every object inside has each name once, as a Go map does.
unfoldable mutual
  unfolding lookup

  pub IsMap : Json → Type 0
  IsMap (object fs) = AreMap fs
  IsMap null = Unit
  IsMap (boolean b) = Unit
  IsMap (number n) = Unit
  IsMap (string t) = Unit
  IsMap (array xs) = Unit

  pub AreMap : Fields → Type 0
  AreMap nil = Unit
  AreMap (field name value rest) = IsMap value × (lookup name rest ≡ none) × AreMap rest

-- Each name of this one object once.
unfoldable pub Unique : Fields → Type 0
unfolding lookup
Unique nil = Unit
Unique (field name value rest) = (lookup name rest ≡ none) × Unique rest

-- The value at a path of names.
unfoldable pub at : List String → Json → Option Json
at [] j = some j
at (key ∷ path) j = elim (lookup key (fields_of j)) [ none ↦ none | some v ↦ at path v ]
