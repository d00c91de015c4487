-- ===== src/Record/Keep.antt =====
-- What a rewrite keeps at every depth, and `Keep` over the bytes.
use text.Mathlib.Text.{◌==◌}
use alborz.Prelude.{
  String, List, [], ◌∷◌, Option, none, some, ◌≡◌, refl, inl, inr, ap, ◌∙◌, Bool-cases, subst,
}
use alborz.Record.Values.{Json, Fields, nil, field, object, fields_of, lookup, IsMap, AreMap, at}
use alborz.Record.{unless_empty, strip, strip_fields, graft, graft_fields, merge}
use alborz.Record.Strip.{stripped, lookup-strip_fields, Unique-strip_fields}
use alborz.Record.Graft.{grafted, lookup-graft_fields}

-- Putting back nothing, as `strip` answers nil for it, is leaving what was written.
graft-unless_empty :
    (left w : Fields) (understood : Json)
    → (elim (unless_empty left) [
      | none ↦ object w
      | some unknown ↦ graft (object w) unknown understood
    ])
      ≡ object (graft_fields w left (fields_of understood))
unfolding graft graft_fields
graft-unless_empty nil w understood = refl
graft-unless_empty (field name value rest) w understood = refl

merge-object :
    (s w : Fields) (understood : Json)
    → merge (object s) understood (object w)
      ≡ object (graft_fields w (strip_fields s (fields_of understood)) (fields_of understood))
unfolding merge strip
merge-object s w understood =
    graft-unless_empty (strip_fields s (fields_of understood)) w understood

-- A merge, name by name.
pub lookup-merge :
    (k : String) (s w : Fields) (understood : Json)
    → AreMap s
    → lookup k (fields_of (merge (object s) understood (object w)))
      ≡ grafted
          (lookup k w)
          (stripped (lookup k s) (lookup k (fields_of understood)))
          (lookup k (fields_of understood))
lookup-merge k s w understood h =
    ap (λ j. lookup k (fields_of j)) (merge-object s w understood)
    ∙ lookup-graft_fields k (strip_fields s u) w u (Unique-strip_fields s u h)
    ∙ ap (λ o. grafted (lookup k w) o (lookup k u)) (lookup-strip_fields k s u h)
  where
    u : Fields
    u = fields_of understood

-- Where a name is stored, understood and written, its value is merged in turn.
pub lookup-merge_under :
    (k : String) (s w : Fields) (understood : Json) {sv uv wv : Json}
    → AreMap s
    → lookup k s ≡ some sv
    → lookup k (fields_of understood) ≡ some uv
    → lookup k w ≡ some wv
    → lookup k (fields_of (merge (object s) understood (object w))) ≡ some (merge sv uv wv)
lookup-merge_under k s w understood {sv} {uv} {wv} h es eu ew =
    lookup-merge k s w understood h ∙ rw (es, eu, ew) (unfold merge in inner (strip sv uv))
  where
    inner :
        (o : Option Json)
        → grafted (some wv) o (some uv)
          ≡ some (elim o [ none ↦ wv | some unknown ↦ graft wv unknown uv ])
    inner none = refl
    inner (some unknown) = refl

pub AreMap-lookup : (k : String) (s : Fields) {v : Json} → AreMap s → lookup k s ≡ some v → IsMap v
unfolding AreMap lookup
AreMap-lookup k nil h e = cc
AreMap-lookup k (field name value rest) {v} h e = elim (Bool-cases (name == k)) [
  | inl same ↦ let p : value ≡ v = cc (rw same at e) in subst IsMap p h.0
  | inr other ↦ AreMap-lookup k rest h.2 (rw other at e)
]

-- What a rewrite is to keep: at `path`, `stored` holds a value whose last name this version did
-- not understand and does not write, inside objects that it understood and still writes.
pub data Unknown : List String → Json → Json → Json → Json → Type 0 where
  here :
      {k : String} {s w : Fields} {understood v : Json}
      → lookup k s ≡ some v
      → lookup k (fields_of understood) ≡ none
      → lookup k w ≡ none
      → Unknown (k ∷ []) (object s) understood (object w) v
  under :
      {k : String} {path : List String} {s w : Fields} {understood sv uv wv v : Json}
      → lookup k s ≡ some sv
      → lookup k (fields_of understood) ≡ some uv
      → lookup k w ≡ some wv
      → Unknown path sv uv wv v
      → Unknown (k ∷ path) (object s) understood (object w) v

-- A field that a newer version added is kept: where every object on the way to it is one that this
-- version understood and still writes, with no list on the way, and it neither understood the field
-- nor writes it, the record holds after a rewrite the value that was stored there. The stored record
-- has each name once.
pub Unknown-merge :
    {path : List String} {stored understood written v : Json}
    → Unknown path stored understood written v
    → IsMap stored
    → at path (merge stored understood written) ≡ some v
unfolding at IsMap
Unknown-merge (here {k} {s} {w} {understood} es eu ew) h =
    rw (lookup-merge k s w understood h, at, es, eu, ew)
Unknown-merge (under {k} {path} {s} {w} {understood} {sv} es eu ew deep) h =
    rw (lookup-merge_under k s w understood h es eu ew, at)
      (Unknown-merge deep (AreMap-lookup k s h es))
