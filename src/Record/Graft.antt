-- ===== src/Record/Graft.antt =====
-- What `graft` writes, name by name.
use text.Mathlib.Text.{◌==◌}
use alborz.Prelude.{
  String, Option, none, some, ◌≡◌, refl, inl, inr, sym, ap, ◌∙◌, arith, eq_iff, if◌then◌else◌,
  Bool-cases, Option-cases,
}
use alborz.Record.Values.{
  Json, Fields, nil, field, object, get_or_null, fields_of, lookup, insert, lookup-insert, Unique,
}
use alborz.Record.{graft, graft_fields}

-- What is written under a name, from what was written, what is unknown and what was understood.
abbrev pub grafted : Option Json → Option Json → Option Json → Option Json
grafted w none known = w
grafted (some have) (some v) known = some (graft have v (get_or_null known))
grafted none (some v) (some dropped) = none
grafted none (some v) none = some v

-- The map after one turn of the loop.
abbrev pub turn : String → Json → Fields → Option Json → Option Json → Fields
turn key value w (some have) known = insert key (graft have value (get_or_null known)) w
turn key value w none (some dropped) = w
turn key value w none none = insert key value w

pub graft_fields-turn :
    (key : String) (value : Json) (w rest known : Fields)
    → graft_fields w (field key value rest) known
      ≡ graft_fields (turn key value w (lookup key w) (lookup key known)) rest known
unfolding graft_fields
graft_fields-turn key value w rest known = elim (Option-cases (lookup key w)) [
  | inl e ↦ elim (Option-cases (lookup key known)) [
    | inl f ↦ rw (e, graft_fields, f)
    | inr (d, f) ↦ rw (e, graft_fields, f)
  ]
  | inr (have, e) ↦ rw (e, graft_fields)
]

pub lookup-turn :
    (k key : String) (value : Json) (w known : Fields) (o p : Option Json)
    → lookup key w ≡ o
    → lookup key known ≡ p
    → lookup k (turn key value w o p) ≡ (if key == k then grafted o (some value) p else lookup k w)
lookup-turn k key value w known (some have) p e f = lookup-insert key k _ w
lookup-turn k key value w known none (some d) e f = ground (arith, eq_iff key k)
lookup-turn k key value w known none none e f = lookup-insert key k value w

pub lookup-graft_fields :
    (k : String) (u w known : Fields)
    → Unique u
    → lookup k (graft_fields w u known) ≡ grafted (lookup k w) (lookup k u) (lookup k known)
unfolding Unique
lookup-graft_fields k nil w known h = unfold lookup graft_fields in refl
lookup-graft_fields k (field key value rest) w known h =
    ap (lookup k) (graft_fields-turn key value w rest known)
    ∙ lookup-graft_fields k rest _ known h.1
    ∙ rw (lookup-turn k key value w known (lookup key w) (lookup key known) refl refl)
        (elim (Bool-cases (key == k)) [
          | inl same ↦
              let e : key ≡ k = (eq_iff key k).0 same in
              unfold lookup in
              rw same (
                ap
                  (λ o.
                    grafted (grafted (lookup key w) (some value) (lookup key known)) o
                      (lookup k known))
                  (ap (λ j. lookup j rest) (sym e) ∙ h.0)
                ∙ ap (λ j. grafted (lookup j w) (some value) (lookup j known)) e)
          | inr other ↦ unfold lookup in rw other
        ])

pub graft-object :
    (w u : Fields) (understood : Json)
    → graft (object w) (object u) understood ≡ object (graft_fields w u (fields_of understood))
unfolding graft
graft-object w u understood = refl
