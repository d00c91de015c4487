-- ===== src/Record/Written.antt =====
-- A rewrite changes nothing that was written, and brings back nothing that was dropped.
use text.Mathlib.Text.{◌==◌}
use alborz.Prelude.{
  String, List, [], ◌∷◌, Option, none, some, ◌≡◌, refl, inl, inr, sym, ap, ◌∙◌, eq_iff, Bool-cases,
  Option-cases, subst,
}
use alborz.Record.Values.{
  Json, Fields, nil, field, object, null, boolean, number, string, array, fields_of, lookup,
  get_or_null, IsMap, at,
}
use alborz.Record.Strip.{stripped}
use alborz.Record.{strip, graft, graft_fields, merge}
use alborz.Record.Graft.{grafted, turn, graft_fields-turn, lookup-turn, graft-object}
use alborz.Record.Keep.{lookup-merge, lookup-merge_under, AreMap-lookup}

-- A value with no fields of its own.
abbrev pub IsLeaf : Json → Type 0
IsLeaf (object fs) = ⊥
IsLeaf null = Unit
IsLeaf (boolean b) = Unit
IsLeaf (number n) = Unit
IsLeaf (string t) = Unit
IsLeaf (array xs) = Unit

graft_of_IsLeaf : (w u understood : Json) → IsLeaf w → graft w u understood ≡ w
unfolding graft
graft_of_IsLeaf (object w) u understood l = absurd l
graft_of_IsLeaf null u understood l = refl
graft_of_IsLeaf (boolean b) u understood l = refl
graft_of_IsLeaf (number n) u understood l = refl
graft_of_IsLeaf (string t) u understood l = refl
graft_of_IsLeaf (array xs) u understood l = refl

-- What stands at a path below a name.
abbrev at_name : List String → Option Json → Option Json
at_name path none = none
at_name path (some j) = at path j

-- One object's loop, given that the values below its names keep `v` at `path`.
module _ (k : String) (path : List String) (v : Json)
    (below : (w u understood : Json)
      → at path w ≡ some v
      → at path (graft w u understood) ≡ some v) where
  grafted-keeps :
      (o p : Option Json) (value : Json)
      → at_name path o ≡ some v
      → at_name path (grafted o (some value) p) ≡ some v
  grafted-keeps none p value h = cc
  grafted-keeps (some have) p value h = below have value (get_or_null p) h

  turn-keeps :
      (key : String) (value : Json) (w known : Fields)
      → at_name path (lookup k w) ≡ some v
      → at_name path (lookup k (turn key value w (lookup key w) (lookup key known))) ≡ some v
  turn-keeps key value w known h =
      ap (at_name path)
        (lookup-turn k key value w known (lookup key w) (lookup key known) refl refl)
      ∙ elim (Bool-cases (key == k)) [
        | inl same ↦
            let e : key ≡ k = (eq_iff key k).0 same in
            rw same (
              grafted-keeps (lookup key w) (lookup key known) value
                (ap (λ j. at_name path (lookup j w)) e ∙ h))
        | inr other ↦ rw other h
      ]

  loop-keeps :
      (u w known : Fields)
      → at_name path (lookup k w) ≡ some v
      → at_name path (lookup k (graft_fields w u known)) ≡ some v
  loop-keeps nil w known h = unfold graft_fields in h
  loop-keeps (field key value rest) w known h =
      ap (λ fs. at_name path (lookup k fs)) (graft_fields-turn key value w rest known)
      ∙ loop-keeps rest _ known (turn-keeps key value w known h)

at-cons :
    (k : String) (path : List String) (j : Json)
    → at (k ∷ path) j ≡ at_name path (lookup k (fields_of j))
unfolding at
at-cons k path j = elim (Option-cases (lookup k (fields_of j))) [
  | inl e ↦ rw (e, at)
  | inr (v, e) ↦ rw (e, at)
]

graft-leaf :
    (path : List String) (w u understood v : Json)
    → IsLeaf v
    → at path w ≡ some v
    → at path (graft w u understood) ≡ some v
graft-leaf [] w u understood v l e =
    unfold at in
    let p : w ≡ v = cc e in ap some (graft_of_IsLeaf w u understood (subst IsLeaf (sym p) l)) ∙ e
graft-leaf (k ∷ path) (object w) (object u) understood v l e =
    ap (at (k ∷ path)) (graft-object w u understood)
    ∙ at-cons k path (object (graft_fields w u (fields_of understood)))
    ∙ loop-keeps k path v (λ a b c. graft-leaf path a b c v l) u w (fields_of understood)
        (sym (at-cons k path (object w)) ∙ e)
graft-leaf (k ∷ path) w u understood v l e = unfold graft in e

-- Whatever was stored, and whatever this version understood of it: at every path where the new
-- record was given a value other than an object, the bytes written hold that value.
pub written_kept :
    (path : List String) (stored understood written v : Json)
    → IsLeaf v
    → at path written ≡ some v
    → at path (merge stored understood written) ≡ some v
unfolding merge
written_kept path stored understood written v l e = elim (Option-cases (strip stored understood)) [
  | inl none_left ↦ rw (none_left, merge) e
  | inr (unknown, some_left) ↦
      rw (some_left, merge) (graft-leaf path written unknown understood v l e)
]

-- A name that this version understood and no longer writes, in an object that it still writes,
-- below objects that it understood and still writes.
pub data Dropped : List String → Json → Json → Type 0 where
  here :
      {k : String} {w : Fields} {understood d : Json}
      → lookup k (fields_of understood) ≡ some d
      → lookup k w ≡ none
      → Dropped (k ∷ []) understood (object w)
  under :
      {k : String} {path : List String} {w : Fields} {understood uv wv : Json}
      → lookup k (fields_of understood) ≡ some uv
      → lookup k w ≡ some wv
      → Dropped path uv wv
      → Dropped (k ∷ path) understood (object w)

Dropped-none :
    {path : List String} {understood written : Json}
    → Dropped path understood written
    → at path written ≡ none
unfolding at
Dropped-none (here eu ew) = rw (ew, at)
Dropped-none (under eu ew deep) = rw (ew, at) (Dropped-none deep)

merge_of_IsLeaf :
    (stored understood written : Json) → IsLeaf stored → merge stored understood written ≡ written
unfolding merge strip
merge_of_IsLeaf (object s) understood written l = absurd l
merge_of_IsLeaf null understood written l = refl
merge_of_IsLeaf (boolean b) understood written l = refl
merge_of_IsLeaf (number n) understood written l = refl
merge_of_IsLeaf (string t) understood written l = refl
merge_of_IsLeaf (array xs) understood written l = refl

grafted_dropped : (w o u : Option Json) {d : Json} → w ≡ none → u ≡ some d → grafted w o u ≡ none
grafted_dropped (some w) o u ew eu = cc
grafted_dropped none none u ew eu = refl
grafted_dropped none (some v) none ew eu = cc
grafted_dropped none (some v) (some d) ew eu = refl

-- What was dropped stays dropped, at every depth. The stored record has each name once.
pub Dropped-merge :
    {path : List String} {understood written : Json} (stored : Json)
    → Dropped path understood written
    → IsMap stored
    → at path (merge stored understood written) ≡ none
unfolding at IsMap
Dropped-merge (object s) (here {k} {w} {understood} eu ew) h =
    let u = lookup k (fields_of understood) in
    let gone : lookup k (fields_of (merge (object s) understood (object w))) ≡ none =
      lookup-merge k s w understood h
      ∙ grafted_dropped (lookup k w) (stripped (lookup k s) u) u ew eu in
    rw (gone, at)
Dropped-merge (object s) (under {k} {path} {w} {understood} eu ew deep) h =
    elim (Option-cases (lookup k s)) [
      | inl es ↦ rw (lookup-merge k s w understood h, at, es, ew) (Dropped-none deep)
      | inr (sv, es) ↦
          rw (lookup-merge_under k s w understood h es eu ew, at)
            (Dropped-merge sv deep (AreMap-lookup k s h es))
    ]
Dropped-merge null d h = rw (merge_of_IsLeaf null) (Dropped-none d)
Dropped-merge (boolean b) d h = rw (merge_of_IsLeaf (boolean b)) (Dropped-none d)
Dropped-merge (number n) d h = rw (merge_of_IsLeaf (number n)) (Dropped-none d)
Dropped-merge (string t) d h = rw (merge_of_IsLeaf (string t)) (Dropped-none d)
Dropped-merge (array xs) d h = rw (merge_of_IsLeaf (array xs)) (Dropped-none d)
