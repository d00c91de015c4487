-- ===== src/CollectionKeys/Wraps.antt =====
-- The wraps that `rekey` makes of a collection's key, and what they open to.
use text.Mathlib.Text.{◌==◌ as text_eq}
use alborz.Prelude.{
  ℕ, String, Bool, false, ◌&&◌, ◌||◌, List, [], ◌∷◌, All, Option, none, some, if◌then◌else◌, ◌≡◌,
  ◌⊎◌, inl, inr, refl, ap, ◌∙◌, sym, arith, eq_refl, eq_iff, Option-cases, Bool-cases,
}
use alborz.Seal.{Crypto, IsLawful}
use alborz.Keyring.{Wrap, Ring, get, instance_key, is_some, pairs_purpose}
use alborz.Keyring.Ops.{wrap, unwrap, unwrap_with, key_of_wrap}
use alborz.CollectionKeys.{wrap_info, KeysTx}
use alborz.CollectionKeys.Ops.{find_wrap, set_wrap, add_wrap, wraps_for}

abbrev pub has_name : String → List String → Bool
has_name name [] = false
has_name name (n ∷ names) = text_eq n name || has_name name names

module _ ⦃crypto : Crypto⦄ where
  find_wrap-set_wrap :
      (name n : String) (w : Wrap) (ws : List (String × Wrap))
      → find_wrap name (set_wrap n w ws) ≡ (if text_eq n name then some w else find_wrap name ws)
  unfolding find_wrap set_wrap
  find_wrap-set_wrap name n w [] = refl
  find_wrap-set_wrap name n w ((m, v) ∷ ws) =
      ground
        (arith, eq_iff m n, eq_iff n name, eq_iff m name, eq_refl n, find_wrap-set_wrap name n w ws)

  find_wrap-add_wrap :
      (name n : String) (o : Option Wrap) (ws : List (String × Wrap))
      → find_wrap name (add_wrap n o ws)
        ≡ (if text_eq n name && is_some o then o else find_wrap name ws)
  find_wrap-add_wrap name n none ws = ground arith
  find_wrap-add_wrap name n (some w) ws = ground (arith, find_wrap-set_wrap name n w ws)

  -- The wrap that the ring makes of a collection's key.
  abbrev pub share : KeysTx → String → String → String → Option Wrap
  share t scope secret name = wrap t.now name secret (wrap_info scope) t.ring

  pub find_wrap-wraps_for :
      (t : KeysTx) (scope secret name : String) (names : List String) (ws : List (String × Wrap))
      → find_wrap name (wraps_for t scope secret names ws) ≡ (
          if has_name name names && is_some (share t scope secret name)
          then share t scope secret name
          else find_wrap name ws)
  unfolding wraps_for
  find_wrap-wraps_for t scope secret name [] ws = refl
  find_wrap-wraps_for t scope secret name (n ∷ names) ws =
      let rest =
        find_wrap-wraps_for t scope secret name names (add_wrap n (share t scope secret n) ws) in
      let first = find_wrap-add_wrap name n (share t scope secret n) ws in
      elim (Bool-cases (text_eq n name)) [
        | inl e ↦
            let same : n ≡ name = (eq_iff n name).0 e in
            ground (arith, e, ap (share t scope secret) same, rest, first)
        | inr e ↦ ground (arith, e, rest, first)
      ]

  -- Every wrap is one of this secret.
  abbrev pub HoldsSecret : String → String → List (String × Wrap) → Type 0
  HoldsSecret info secret ws =
      All (λ row. (to : crypto.Public) × (row.1.wrapped ≡ crypto.wrap to info secret)) ws

  set_wrap-HoldsSecret :
      (info secret name : String) (w : Wrap) (to : crypto.Public) (ws : List (String × Wrap))
      → w.wrapped ≡ crypto.wrap to info secret
      → HoldsSecret info secret ws
      → HoldsSecret info secret (set_wrap name w ws)
  unfolding set_wrap
  set_wrap-HoldsSecret info secret name w to [] h all = ((to, h), tt)
  set_wrap-HoldsSecret info secret name w to ((n, v) ∷ ws) h (first, all) =
      elim (Bool-cases (text_eq n name)) [
        | inl e ↦ rw e ((to, h), all)
        | inr e ↦ rw e (first, set_wrap-HoldsSecret info secret name w to ws h all)
      ]

  add_share-HoldsSecret :
      (t : KeysTx) (scope secret name : String) (ws : List (String × Wrap))
      → HoldsSecret (wrap_info scope) secret ws
      → HoldsSecret (wrap_info scope) secret (add_wrap name (share t scope secret name) ws)
  unfolding wrap
  add_share-HoldsSecret t scope secret name ws all =
      elim (Option-cases (get t.now name t.ring).public) [
        | inl e ↦
            let none_made : share t scope secret name ≡ none = ground (arith, e) in rw none_made all
        | inr (public, e) ↦
            let w : Wrap = record {
              to = (get t.now name t.ring).id;
              wrapped = crypto.wrap public (wrap_info scope) secret;
            } in
            let made : share t scope secret name ≡ some w = ground (arith, e) in
            rw made (set_wrap-HoldsSecret (wrap_info scope) secret name w public ws refl all)
      ]

  pub wraps_for-HoldsSecret :
      (t : KeysTx) (scope secret : String) (names : List String) (ws : List (String × Wrap))
      → HoldsSecret (wrap_info scope) secret ws
      → HoldsSecret (wrap_info scope) secret (wraps_for t scope secret names ws)
  unfolding wraps_for
  wraps_for-HoldsSecret t scope secret [] ws all = all
  wraps_for-HoldsSecret t scope secret (n ∷ names) ws all =
      wraps_for-HoldsSecret t scope secret names (add_wrap n (share t scope secret n) ws)
        (add_share-HoldsSecret t scope secret n ws all)

  module _ (lawful : IsLawful crypto) where
    -- A wrap of the secret opens to nothing else.
    unwrap_with-secret :
        (info secret : String) (v : Wrap) (to : crypto.Public) (o : Option crypto.Private)
        → v.wrapped ≡ crypto.wrap to info secret
        → (unwrap_with info v o ≡ none) ⊎ (unwrap_with info v o ≡ some secret)
    unwrap_with-secret info secret v to none wrapped = inl refl
    unwrap_with-secret info secret v to (some q) wrapped =
        elim (Option-cases (crypto.unwrap q info v.wrapped)) [
          | inl fails ↦ inl fails
          | inr (found, gives) ↦ inr (
              gives
              ∙ ap some (
                  lawful.wrap_authentic q to info secret found
                    (ap (crypto.unwrap q info) (sym wrapped) ∙ gives)))
        ]

    pub unwrap-HoldsSecret :
        (now : ℕ) (info secret name : String) (r : Ring) (ws : List (String × Wrap)) (w : Wrap)
        (p : crypto.Private)
        → HoldsSecret info secret ws
        → find_wrap name ws ≡ some w
        → key_of_wrap (instance_key r pairs_purpose) (get now name r) w ≡ some p
        → crypto.unwrap p info w.wrapped ≡ some secret
        → unwrap now ws info r ≡ some secret
    unfolding unwrap find_wrap
    unwrap-HoldsSecret now info secret name r [] w p all h key opens = absurd cc
    unwrap-HoldsSecret now info secret name r ((n, v) ∷ ws) w p ((to, wrapped), all) h key opens =
        let key_for =
          λ (m : String) (x : Wrap). key_of_wrap (instance_key r pairs_purpose) (get now m r) x in
        elim (Bool-cases (text_eq n name)) [
          | inl e ↦
              let same : n ≡ name = (eq_iff n name).0 e in
              let it : v ≡ w = ground (arith, e, h) in
              let tried : unwrap_with info v (key_for n v) ≡ some secret =
                ap (λ m. unwrap_with info v (key_for m v)) same
                ∙ ap (λ x. unwrap_with info x (key_for name x)) it
                ∙ ap (unwrap_with info w) key
                ∙ opens in
              rw (tried, unwrap) refl
          | inr e ↦
              let rest =
                unwrap-HoldsSecret now info secret name r ws w p all (ground (arith, e, h)) key
                  opens in
              elim (unwrap_with-secret info secret v to (key_for n v) wrapped) [
                | inl fails ↦ rw (fails, unwrap) rest
                | inr gives ↦ rw (gives, unwrap) refl
              ]
        ]
