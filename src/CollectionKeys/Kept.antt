-- ===== src/CollectionKeys/Kept.antt =====
-- Opening and sealing change nothing in a transaction but the keys that it holds.
use alborz.Prelude.{
  ℕ, String, Bool, List, [], ◌∷◌, ok, ◌==◌, ◌≡◌, inl, inr, refl, ap, ◌∙◌, subst, arith,
  Result-cases, Option-cases, Bool-cases,
}
use alborz.Seal.{Crypto, SealKey, Sealed, by_account, format_of, open_sealed}
use alborz.CollectionKeys.{ValueKey, KeysTx, is_locked, collection, open_value, scope_opened}
use alborz.CollectionKeys.Values.{collection-keeps}
use alborz.CollectionKeys.Access.{scope_of, passed, tried, looked_at, scan_rows, sealer}

module _ ⦃crypto : Crypto⦄ (size : String → ℕ) where
  -- Nothing but the map of keys differs.
  abbrev pub Keeps : KeysTx → KeysTx → Type 0
  Keeps t u = u ≡ record t { held = u.held }

  pub open_value-Keeps :
      (scope : String) (s : Sealed) (t : KeysTx) {plain : String} {u : KeysTx}
      → open_value size scope s t ≡ ok (plain, u)
      → Keeps t u
  unfolding open_value
  open_value-Keeps scope s t {plain} {u} run = elim (Bool-cases (format_of s == by_account)) [
    | inr plainly ↦ elim (Result-cases (open_sealed t.instance_key s)) [
      | inl (e, f) ↦ absurd (ground (arith, plainly, f, run))
      | inr (p, f) ↦ let same : u ≡ t = ground (arith, plainly, f, run) in ground (arith, same)
    ]
    | inl scoped ↦ elim (Result-cases (collection size scope t)) [
      | inl (e, f) ↦ absurd (ground (arith, scoped, f, run))
      | inr ((c, t1), f) ↦ elim (Result-cases (scope_opened s c)) [
        | inl (e, g) ↦ absurd (ground (arith, scoped, f, g, run))
        | inr (p, g) ↦
            let same : t1 ≡ u = ground (arith, scoped, f, g, run) in
            subst (Keeps t) same (collection-keeps size scope t f)
      ]
    ]
  ]

  pub tried-Keeps : (scope : String) (s : Sealed) (t : KeysTx) → Keeps t (tried size scope s t)
  tried-Keeps scope s t = elim (Bool-cases (format_of s == by_account)) [
    | inr plainly ↦ rw plainly refl
    | inl scoped ↦ elim (Result-cases (collection size scope t)) [
      | inl (e, f) ↦ rw (scoped, f) refl
      | inr ((c, u), f) ↦ rw (scoped, f) (collection-keeps size scope t f)
    ]
  ]

  pub looked_at-Keeps :
      (scope : String) (t : KeysTx) → Keeps t (looked_at (collection size scope t) t)
  looked_at-Keeps scope t = elim (Result-cases (collection size scope t)) [
    | inl (e, f) ↦ rw f refl
    | inr ((c, u), f) ↦ rw f (collection-keeps size scope t f)
  ]

  pub sealer-Keeps :
      (k : ValueKey) (t : KeysTx) {key : SealKey} {u : KeysTx}
      → sealer size k t ≡ ok (key, u)
      → Keeps t u
  unfolding sealer
  sealer-Keeps k t {key} {u} run = elim (Option-cases k.scope) [
    | inl unscoped ↦ let same : u ≡ t = ground (arith, unscoped, run) in ground (arith, same)
    | inr (scope, scoped) ↦ elim (Result-cases (collection size scope t)) [
      | inl (e, f) ↦ absurd (ground (arith, scoped, f, run))
      | inr ((c, t1), f) ↦
          let same : t1 ≡ u = ground (arith, scoped, f, run, Bool-cases (is_locked c)) in
          subst (Keeps t) same (collection-keeps size scope t f)
    ]
  ]

  -- A scan changes nothing but the keys held.
  pub Keeps-trans : (t u v : KeysTx) → Keeps t u → Keeps u v → Keeps t v
  Keeps-trans t u v a b = b ∙ ap (λ (x : KeysTx). record x { held = v.held }) a

  pub scan_rows-Keeps :
      (under : ValueKey → Bool) (rows : List (ValueKey × Sealed)) (t : KeysTx)
      → Keeps t (scan_rows size under rows t).1
  unfolding scan_rows
  scan_rows-Keeps under [] t = refl
  scan_rows-Keeps under ((k, s) ∷ rows) t = elim (Bool-cases (under k)) [
    | inr out ↦ rw (out, scan_rows) (scan_rows-Keeps under rows t)
    | inl within ↦ elim (Result-cases (open_value size (scope_of k) s t)) [
      | inr ((plain, u), f) ↦
          rw (within, f, scan_rows)
            (Keeps-trans t u (scan_rows size under rows u).1 (open_value-Keeps (scope_of k) s t f)
              (scan_rows-Keeps under rows u))
      | inl (e, f) ↦
          let u = tried size (scope_of k) s t in
          let kept = tried-Keeps (scope_of k) s t in
          elim (Bool-cases (passed t e)) [
            | inl goes_on ↦
                rw (within, f, goes_on, scan_rows)
                  (Keeps-trans t u (scan_rows size under rows u).1 kept
                    (scan_rows-Keeps under rows u))
            | inr ends ↦ rw (within, f, ends, scan_rows) kept
          ]
    ]
  ]
