-- ===== src/Store/Feeds/Same.antt =====
-- When a fetch brings what is held: as many objects, each held under its name with the ETag of its bytes.
use text.Mathlib.Text.{◌==◌}
use alborz.Prelude.{
  ◌==◌ as nat_eq, String, true, false, List, [], ◌∷◌, ◌++◌, length, All, All-append, some, ◌≡◌, ◌⊎◌,
  inl, inr, refl, sym, ap, ◌∙◌, arith, Bool-cases, Option-cases, eq_iff,
}
use alborz.Store.Types.{Object}
use alborz.Store.Env.{Env}
use alborz.Store.Feeds.{hold, held_from, find_held, etag_of_held, any_differs, has_changed}

-- No object of the list has the name.
abbrev IsNew : List Object → Object → Type 0
IsNew held o = All (λ (p : Object). (p.name == o.name) ≡ false) held

-- Each object has a name of its own.
unfoldable pub IsDistinct : List Object → Type 0
IsDistinct [] = Unit
IsDistinct (o ∷ os) = All (λ (p : Object). (o.name == p.name) ≡ false) os × IsDistinct os

hold-IsNew : (o : Object) (held : List Object) → IsNew held o → hold o held ≡ held ++ o ∷ []
unfolding hold
hold-IsNew o [] h = refl
hold-IsNew o (p ∷ held) (e, h) = ground (arith, e, hold-IsNew o held h)

append-IsNew :
    (held : List Object) (o : Object) (os : List Object)
    → All (IsNew held) os
    → All (λ (p : Object). (o.name == p.name) ≡ false) os
    → All (IsNew (held ++ o ∷ [])) os
append-IsNew held o [] h k = tt
append-IsNew held o (p ∷ os) (h, hs) (k, ks) = (
  All-append (λ (x : Object). (x.name == p.name) ≡ false) held (o ∷ []) h (k, tt),
  append-IsNew held o os hs ks,
)

append_assoc :
    (held : List Object) (o : Object) (os : List Object) → (held ++ o ∷ []) ++ os ≡ held ++ o ∷ os
append_assoc [] o os = refl
append_assoc (p ∷ held) o os = ap (λ x. p ∷ x) (append_assoc held o os)

held_from-IsDistinct :
    (held os : List Object) → All (IsNew held) os → IsDistinct os → held_from held os ≡ held ++ os
unfolding held_from IsDistinct
held_from-IsDistinct [] [] h d = refl
held_from-IsDistinct (p ∷ held) [] h d = ap (λ x. p ∷ x) (held_from-IsDistinct held [] tt tt)
held_from-IsDistinct held (o ∷ os) (h, hs) (d, ds) =
    ap (λ x. held_from x os) (hold-IsNew o held h)
    ∙ held_from-IsDistinct (held ++ o ∷ []) os (append-IsNew held o os hs d) ds
    ∙ append_assoc held o os

none-IsNew : (os : List Object) → All (IsNew []) os
none-IsNew [] = tt
none-IsNew (o ∷ os) = (tt, none-IsNew os)

module _ ⦃env : Env⦄ where
  -- The object is held under its name, with the ETag of its bytes.
  unfoldable pub IsHeld : List Object → Object → Type 0
  IsHeld [] o = ⊥
  IsHeld (p ∷ held) o = ((p.name ≡ o.name) × (p.etag ≡ env.etag_of o.bytes)) ⊎ IsHeld held o

  pub record IsSame (stored os : List Object) : Type 0 where
    pub as_many : length stored ≡ length os
    pub all_held : All (IsHeld stored) os

  -- No ETag is the empty text.
  abbrev pub HasEtag : Object → Type 0
  HasEtag o = ("" == env.etag_of o.bytes) ≡ false

  find_held-IsHeld :
      (held : List Object) (o : Object) {p : Object}
      → find_held o.name held ≡ some p
      → p.etag ≡ env.etag_of o.bytes
      → IsHeld held o
  unfolding find_held IsHeld
  find_held-IsHeld [] o h e = absurd cc
  find_held-IsHeld (q ∷ held) o {p} h e = elim (Bool-cases (q.name == o.name)) [
    | inl f ↦
        let it : q ≡ p = ground (arith, f, h) in
        inl ((eq_iff q.name o.name).0 f, ap (λ (x : Object). x.etag) it ∙ e)
    | inr f ↦ inr (find_held-IsHeld held o {p = p} (ground (arith, f, h)) e)
  ]

  IsHeld-apart :
      (name : String) (held : List Object) (o : Object)
      → All (λ (p : Object). (name == p.name) ≡ false) held
      → IsHeld held o
      → (name == o.name) ≡ false
  unfolding IsHeld
  IsHeld-apart name [] o h e = absurd e
  IsHeld-apart name (p ∷ held) o (h, hs) (inl (same, e)) = ap (λ x. name == x) (sym same) ∙ h
  IsHeld-apart name (p ∷ held) o (h, hs) (inr e) = IsHeld-apart name held o hs e

  IsHeld-etag :
      (held : List Object) (o : Object)
      → IsDistinct held
      → IsHeld held o
      → (etag_of_held (find_held o.name held) == env.etag_of o.bytes) ≡ true
  unfolding IsHeld IsDistinct find_held
  IsHeld-etag [] o d e = absurd e
  IsHeld-etag (p ∷ held) o (d, ds) (inl (same, e)) =
      let here : (p.name == o.name) ≡ true = (eq_iff p.name o.name).1 same in
      let etags : (p.etag == env.etag_of o.bytes) ≡ true =
        (eq_iff p.etag (env.etag_of o.bytes)).1 e in
      rw (here, find_held) etags
  IsHeld-etag (p ∷ held) o (d, ds) (inr e) =
      let there = IsHeld-apart p.name held o d e in rw (there, find_held) (IsHeld-etag held o ds e)

  IsHeld-any_differs :
      (held os : List Object) → IsDistinct held → All (IsHeld held) os → any_differs held os ≡ false
  unfolding any_differs
  IsHeld-any_differs held [] d h = refl
  IsHeld-any_differs held (o ∷ os) d (h, hs) =
      let same = IsHeld-etag held o d h in rw (same, any_differs) (IsHeld-any_differs held os d hs)

  any_differs-IsHeld :
      (held os : List Object) → All HasEtag os → any_differs held os ≡ false → All (IsHeld held) os
  unfolding any_differs
  any_differs-IsHeld held [] k h = tt
  any_differs-IsHeld held (o ∷ os) (k, ks) h =
      let same : (etag_of_held (find_held o.name held) == env.etag_of o.bytes) ≡ true =
        ground
          (arith, h, Bool-cases (etag_of_held (find_held o.name held) == env.etag_of o.bytes)) in
      let rest : any_differs held os ≡ false = ground (arith, h, same) in
      elim (Option-cases (find_held o.name held)) [
        | inl e ↦
            let bare : ("" == env.etag_of o.bytes) ≡ true =
              ap (λ x. etag_of_held x == env.etag_of o.bytes) (sym e) ∙ same in
            absurd (ground (arith, k, bare))
        | inr (p, e) ↦
            let etag : (p.etag == env.etag_of o.bytes) ≡ true =
              ap (λ x. etag_of_held x == env.etag_of o.bytes) (sym e) ∙ same in
            (
              find_held-IsHeld held o e ((eq_iff p.etag (env.etag_of o.bytes)).0 etag),
              any_differs-IsHeld held os ks rest,
            )
      ]

  -- The test of `replace` tells whether the fetch brings what is held.
  pub has_changed-IsSame :
      (stored os : List Object)
      → IsDistinct stored
      → All HasEtag os
      → ((has_changed (held_from [] stored) os ≡ false) × IsSame stored os)
        ⊎ ((has_changed (held_from [] stored) os ≡ true) × ¬ IsSame stored os)
  unfolding has_changed
  has_changed-IsSame stored os d k =
      let all = held_from-IsDistinct [] stored (none-IsNew stored) d in
      elim (Bool-cases (has_changed stored os)) [
        | inr same ↦
            let many : nat_eq (length stored) (length os) ≡ true =
              ground (arith, same, Bool-cases (nat_eq (length stored) (length os))) in
            inl (
              ap (λ x. has_changed x os) all ∙ same,
              record {
                as_many = ground (arith, many);
                all_held = any_differs-IsHeld stored os k (ground (arith, same, many));
              },
            )
        | inl other ↦ inr (
          ap (λ x. has_changed x os) all ∙ other,
          λ s.
              let none_differs = IsHeld-any_differs stored os d s.all_held in
              absurd (ground (arith, other, none_differs, s.as_many)),
        )
      ]
