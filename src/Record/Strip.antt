-- ===== src/Record/Strip.antt =====
-- What `strip` keeps, name by name.
use text.Mathlib.Text.{◌==◌}
use alborz.Prelude.{
  String, Option, none, some, ◌≡◌, refl, inl, inr, sym, ap, ◌∙◌, arith, eq_iff, if◌then◌else◌,
  Bool-cases, Option-cases,
}
use alborz.Record.Values.{Json, Fields, nil, field, object, fields_of, lookup, Unique, AreMap}
use alborz.Record.{unless_empty, add_inner, strip, strip_fields}

-- What is left of one stored value, given what was understood under its name.
abbrev pub stripped : Option Json → Option Json → Option Json
stripped none u = none
stripped (some v) none = some v
stripped (some v) (some known) = strip v known

lookup-add_inner :
    (k name : String) (o : Option Json) (rest : Fields)
    → lookup k (add_inner name o rest)
      ≡ (if name == k then (elim o [ none ↦ lookup k rest | some v ↦ some v ]) else lookup k rest)
unfolding lookup
lookup-add_inner k name none rest = ground arith
lookup-add_inner k name (some v) rest = refl

kept_or_none :
    (o : Option Json) {p : Option Json} → p ≡ none → (elim o [ none ↦ p | some v ↦ some v ]) ≡ o
kept_or_none none e = e
kept_or_none (some v) e = refl

strip_head :
    (k name : String) (value : Json) (rest u : Fields)
    → lookup k (strip_fields (field name value rest) u) ≡ (
        if name == k
        then (elim (stripped (some value) (lookup name u)) [
          | none ↦ lookup k (strip_fields rest u)
          | some v ↦ some v
        ])
        else lookup k (strip_fields rest u))
unfolding lookup strip_fields
strip_head k name value rest u = elim (Option-cases (lookup name u)) [
  | inl unknown ↦ rw (unknown, strip_fields)
  | inr (known, found) ↦ rw (found, strip_fields) (lookup-add_inner k name (strip value known) _)
]

pub lookup-strip_fields :
    (k : String) (s u : Fields)
    → AreMap s
    → lookup k (strip_fields s u) ≡ stripped (lookup k s) (lookup k u)
unfolding lookup AreMap
lookup-strip_fields k nil u h = unfold strip_fields in refl
lookup-strip_fields k (field name value rest) u h =
    strip_head k name value rest u ∙ elim (Bool-cases (name == k)) [
      | inl same ↦
          let e : name ≡ k = (eq_iff name k).0 same in
          let left : lookup k rest ≡ none = ap (λ j. lookup j rest) (sym e) ∙ h.1 in
          rw same (
            kept_or_none (stripped (some value) (lookup name u))
              (lookup-strip_fields k rest u h.2 ∙ ap (λ o. stripped o (lookup k u)) left)
            ∙ ap (λ j. stripped (some value) (lookup j u)) e)
      | inr other ↦ rw (other, lookup) (lookup-strip_fields k rest u h.2)
    ]

-- The same of an object: nil when nothing of it is left.
pub strip-object :
    (s : Fields) (understood : Json)
    → strip (object s) understood ≡ unless_empty (strip_fields s (fields_of understood))
unfolding strip
strip-object s understood = refl

pub unless_empty-some :
    (k : String) (fs : Fields) {v : Json}
    → lookup k fs ≡ some v
    → unless_empty fs ≡ some (object fs)
unfolding lookup
unless_empty-some k nil h = cc
unless_empty-some k (field name value rest) h = refl

-- `strip` leaves every name once.
pub Unique-strip_fields : (s u : Fields) → AreMap s → Unique (strip_fields s u)
unfolding strip_fields AreMap Unique
Unique-strip_fields nil u h = tt
Unique-strip_fields (field name value rest) u h = elim (Option-cases (lookup name u)) [
  | inl unknown ↦ rw (unknown, strip_fields, Unique) (gone, Unique-strip_fields rest u h.2)
  | inr (known, found) ↦ elim (Option-cases (strip value known)) [
    | inl e ↦ rw (found, strip_fields, e, Unique) (Unique-strip_fields rest u h.2)
    | inr (v, e) ↦ rw (found, strip_fields, e, Unique) (gone, Unique-strip_fields rest u h.2)
  ]
]
  where
    gone : lookup name (strip_fields rest u) ≡ none
    gone = lookup-strip_fields name rest u h.2 ∙ ap (λ o. stripped o (lookup name u)) h.1
