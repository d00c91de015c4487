-- ===== src/Record/Tests.antt =====
-- A record with a field that this version does not know, one that it rewrites and one it drops.
use text.Mathlib.Text.{◌==◌}
use alborz.Prelude.{
  String, true, false, [], ◌∷◌, Option, none, some, ok, ◌≡◌, refl, arith, if◌then◌else◌,
}
use alborz.Record.Values.{Json, nil, field, object, string, lookup, insert, at, IsMap}
use alborz.Record.{Coding, strip, graft, merge, keep}
use alborz.Record.Keep.{Unknown, Unknown-merge}
use alborz.Record.Written.{written_kept, Dropped}
use alborz.Record.Bytes.{Reads}

abbrev feed_stored : Json
feed_stored = object (field "Url" (string "u") (field "Shade" (string "dim") nil))

abbrev stored : Json
stored =
    object (field "Name" (string "old") (field "Feed" feed_stored (field "Tag" (string "t") nil)))

abbrev understood : Json
understood = object (
    field "Name" (string "old")
      (field "Feed" (object (field "Url" (string "u") nil)) (field "Tag" (string "t") nil)))

abbrev written : Json
written =
    object (field "Name" (string "new") (field "Feed" (object (field "Url" (string "v") nil)) nil))

stored-IsMap : IsMap stored
unfolding IsMap lookup
stored-IsMap = ground arith

shade_is_Unknown : Unknown ("Feed" ∷ "Shade" ∷ []) stored understood written (string "dim")
unfolding lookup
shade_is_Unknown = Unknown.under refl refl refl (Unknown.here refl refl refl)

Unknown-merge_example :
    at ("Feed" ∷ "Shade" ∷ []) (merge stored understood written) ≡ some (string "dim")
Unknown-merge_example = Unknown-merge shade_is_Unknown stored-IsMap

written_kept_example :
    at ("Feed" ∷ "Url" ∷ []) (merge stored understood written) ≡ some (string "v")
unfolding at lookup
written_kept_example =
    written_kept ("Feed" ∷ "Url" ∷ []) stored understood written (string "v") tt refl

tag_is_Dropped : Dropped ("Tag" ∷ []) understood written
unfolding lookup
tag_is_Dropped = Dropped.here refl refl

-- A type with one field, coded as values: `none` stands for no bytes.
abbrev name_of : Option Json → Option String
name_of none = none
name_of (some (object (field k (string v) rest))) = if k == "Name" then some v else none
name_of (some _) = none

abbrev named : Coding String
named = record {
  Bytes = Option Json;
  is_empty = λ b. elim b [ none ↦ true | some j ↦ false ];
  marshal = λ v. some (some (object (field "Name" (string v) nil)));
  unmarshal = name_of;
  decode = λ b. b;
  encode = λ j. some (some j);
}

abbrev old_bytes : Option Json
old_bytes = some (object (field "Name" (string "old") (field "Shade" (string "dim") nil)))

abbrev new_bytes : Option Json
new_bytes = some (object (field "Name" (string "new") (field "Shade" (string "dim") nil)))

encode_decodes :
    (j : Json) (b : Option Json)
    → ◌≡◌ {A = Option (Option Json)} (some (some j)) (some b)
    → b ≡ some j
encode_decodes j b e = cc

keeps_shade : keep named old_bytes "new" ≡ ok new_bytes
unfolding keep strip graft lookup insert
keeps_shade = refl

abbrev one_name : String → Json
one_name v = object (field "Name" (string v) nil)

abbrev old_json : Json
old_json = object (field "Name" (string "old") (field "Shade" (string "dim") nil))

old_bytes-Reads : Reads named old_bytes "new" old_json (one_name "old") (one_name "new")
old_bytes-Reads = record {
  known = "old";
  seen = some (one_name "old");
  fresh = some (one_name "new");
  held = refl;
  old_decodes = refl;
  old_is_known = refl;
  known_encodes = refl;
  seen_decodes = refl;
  new_encodes = refl;
  fresh_decodes = refl;
}
