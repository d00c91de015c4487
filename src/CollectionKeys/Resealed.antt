-- ===== src/CollectionKeys/Resealed.antt =====
-- A collection's records before and after they were put under another key.
use alborz.Prelude.{ℕ, String, true, false, List, [], ◌∷◌, All, ok, if◌then◌else◌, ◌≡◌, refl, arith}
use alborz.Seal.{Crypto, SealKey, Sealed, seal}
use alborz.CollectionKeys.{ValueKey, in_scope, KeysTx, open_all}
use alborz.CollectionKeys.Ops.{put_all}
use alborz.CollectionKeys.Values.{
  IsApart, IsMap, put_all-apart, put_all-first, passed_over, taken, open_all-Scanned,
  open_all-IsApart,
}

module _ ⦃crypto : Crypto⦄ where
  -- What stands in a scope, and what does not.
  unfoldable pub inside : String → List (ValueKey × Sealed) → List (ValueKey × Sealed)
  inside scope [] = []
  inside scope ((k, s) ∷ rows) =
      let rest = inside scope rows in if in_scope scope k then (k, s) ∷ rest else rest

  unfoldable pub outside : String → List (ValueKey × Sealed) → List (ValueKey × Sealed)
  outside scope [] = []
  outside scope ((k, s) ∷ rows) =
      let rest = outside scope rows in if in_scope scope k then rest else (k, s) ∷ rest

  module _ (size : String → ℕ) where
    -- Rows where each of the scope's is under the key, and the others are as they were.
    pub data Resealed (key : SealKey) (scope : String)
        : List (ValueKey × Sealed) → List (ValueKey × Sealed) → Type 0 where
      resealed_none : Resealed key scope [] []
      kept :
          {k : ValueKey} {s : Sealed} {rows after : List (ValueKey × Sealed)}
          → in_scope scope k ≡ false
          → Resealed key scope rows after
          → Resealed key scope ((k, s) ∷ rows) ((k, s) ∷ after)
      under :
          {k : ValueKey} {s : Sealed} (plain : String) {rows after : List (ValueKey × Sealed)}
          → in_scope scope k ≡ true
          → Resealed key scope rows after
          → Resealed key scope ((k, s) ∷ rows) ((k, seal key plain) ∷ after)

    pub put_all-Resealed :
        (scope : String) (key : SealKey) (rows : List (ValueKey × Sealed)) (t : KeysTx) {u : KeysTx}
        {vs : List (ValueKey × String)}
        → IsMap rows
        → open_all size scope rows t ≡ ok (vs, u)
        → Resealed key scope rows (put_all key vs rows)
    unfolding open_all put_all
    put_all-Resealed scope key [] t {u} {vs} h run =
        let e : vs ≡ [] = ground (arith, run) in rw e resealed_none
    put_all-Resealed scope key ((k, s) ∷ rows) t {u} {vs} (apart, h) run =
        elim (open_all-Scanned size scope k s rows t run) [
          | passed_over out rest ↦
              rw (put_all-apart key k s vs rows (open_all-IsApart size scope k rows t apart rest))
                (kept out (put_all-Resealed scope key rows t h rest))
          | taken {ps = ps} {v = v} {plain = plain} within first rest e ↦
              rw
                (
                  e,
                  put_all-first key k s plain ps rows
                      (open_all-IsApart size scope k rows v apart rest),
                )
                (under plain within (put_all-Resealed scope key rows v h rest))
        ]

    pub Resealed-outside :
        {key : SealKey} {scope : String} {rows after : List (ValueKey × Sealed)}
        → Resealed key scope rows after
        → outside scope after ≡ outside scope rows
    unfolding outside
    Resealed-outside resealed_none = refl
    Resealed-outside (kept out r) = ground (arith, out, Resealed-outside r)
    Resealed-outside (under plain within r) = ground (arith, within, Resealed-outside r)

    pub Resealed-inside :
        {key : SealKey} {scope : String} {rows after : List (ValueKey × Sealed)}
        (P : Sealed → Type 0)
        → ((plain : String) → P (seal key plain))
        → Resealed key scope rows after
        → All (λ row. P row.1) (inside scope after)
    unfolding inside
    Resealed-inside P all resealed_none = tt
    Resealed-inside P all (kept out r) = rw out (Resealed-inside P all r)
    Resealed-inside P all (under plain within r) = rw within (all plain, Resealed-inside P all r)

    Resealed-IsApart :
        {key : SealKey} {scope : String} {rows after : List (ValueKey × Sealed)} (j : ValueKey)
        → Resealed key scope rows after
        → IsApart j rows
        → IsApart j after
    Resealed-IsApart j resealed_none h = tt
    Resealed-IsApart j (kept out r) (e, h) = (e, Resealed-IsApart j r h)
    Resealed-IsApart j (under plain within r) (e, h) = (e, Resealed-IsApart j r h)

    pub Resealed-IsMap :
        {key : SealKey} {scope : String} {rows after : List (ValueKey × Sealed)}
        → Resealed key scope rows after
        → IsMap rows
        → IsMap after
    Resealed-IsMap resealed_none h = tt
    Resealed-IsMap (kept {k = k} out r) (apart, h) =
        (Resealed-IsApart k r apart, Resealed-IsMap r h)
    Resealed-IsMap (under {k = k} plain within r) (apart, h) =
        (Resealed-IsApart k r apart, Resealed-IsMap r h)
