-- ===== src/Keyring/Open.antt =====
-- What an account sealed it opens, also after its key was changed.
use text.Mathlib.Text.{◌==◌ as text_eq}
use alborz.Prelude.{
  ℕ, ◌<◌, String, Bool, true, false, ◌||◌, List, [], ◌∷◌, ◌++◌, Option, none, some, ok, ◌≡◌, ◌⊎◌,
  refl, inl, inr, ap, ◌∙◌, arith, eq_refl, eq_iff, Option-cases,
}
use alborz.Seal.{
  Crypto, IsLawful, SealKey, by_account, by_instance, seal, open_sealed, open_sealed-seal,
}
use alborz.Keyring.{
  Account, Ring, expire, get, instance_key, own_key, open_value, try_old, try_own, or_else,
  plain_of, pairs_purpose,
}
use alborz.Keyring.{settle, renew_pair}
use alborz.Keyring.Ops.{for_values, open_held, turn, keep_turned, turning, with_own}
use alborz.Keyring.Expiry.{encryption_off, encryption_on, for_values-GivesKey}

abbrev pub has_old : String → List String → Bool
has_old k [] = false
has_old k (j ∷ old) = text_eq j k || has_old k old

module _ ⦃crypto : Crypto⦄ where
  -- The own key held, or one of those it replaced.
  abbrev pub IsAtHand : String → Account → Type 0
  IsAtHand k a = (a.own ≡ some k) ⊎ (has_old k a.old ≡ true)

module _ ⦃crypto : Crypto⦄ (lawful : IsLawful crypto) where
  -- A key opens what another sealed only if they are one.
  other_key :
      (k j purpose plain : String)
      → (plain_of (open_sealed (own_key j purpose) (seal (own_key k purpose) plain)) ≡ none)
        ⊎ (plain_of (open_sealed (own_key j purpose) (seal (own_key k purpose) plain)) ≡ some plain)
  unfolding open_sealed seal
  other_key k j purpose plain =
      elim (Option-cases (
        crypto.decrypt (own_key j purpose).secret by_account
          (crypto.encrypt (own_key k purpose).secret by_account plain))) [
            | inl fails ↦ inl (ground (arith, fails))
            | inr (found, opens) ↦
                let same = lawful.authentic _ _ _ _ _ opens in
                inr (
                  ground (
                    arith,
                    opens,
                    same,
                    lawful.decrypt-encrypt (own_key k purpose).secret by_account plain,
                  ))
          ]

  own_opens :
      (k purpose plain : String)
      → plain_of (open_sealed (own_key k purpose) (seal (own_key k purpose) plain)) ≡ some plain
  own_opens k purpose plain = ap plain_of (open_sealed-seal lawful (own_key k purpose) plain refl)

  try_old-seal :
      (k purpose plain : String) (old : List String)
      → has_old k old ≡ true
      → try_old old purpose (seal (own_key k purpose) plain) ≡ some plain
  unfolding try_old
  try_old-seal k purpose plain [] h = cc
  try_old-seal k purpose plain (j ∷ old) h = ground (
    arith,
    other_key k j purpose plain,
    own_opens k purpose plain,
    eq_iff j k,
    try_old-seal k purpose plain old,
  )

  own_or_old :
      (k purpose plain : String) (own : Option String) (old : List String)
      → (own ≡ some k) ⊎ (has_old k old ≡ true)
      → or_else
          (try_own own purpose (seal (own_key k purpose) plain))
          (try_old old purpose (seal (own_key k purpose) plain))
        ≡ some plain
  own_or_old k purpose plain none old (inl e) = absurd cc
  own_or_old k purpose plain none old (inr h) = try_old-seal k purpose plain old h
  own_or_old k purpose plain (some j) old (inl e) =
      let it : j ≡ k = cc in ground (arith, it, own_opens k purpose plain)
  own_or_old k purpose plain (some j) old (inr h) =
      ground (arith, other_key k j purpose plain, try_old-seal k purpose plain old h)

  pub open_value-seal :
      (instance : SealKey) (a : Account) (k purpose plain : String)
      → IsAtHand k a
      → open_value instance a purpose (seal (own_key k purpose) plain) ≡ ok plain
  unfolding open_value seal
  open_value-seal instance a k purpose plain h =
      ground (arith, own_or_old k purpose plain a.own a.old h)

  -- What goes under the key that the ring gives for new values, the ring opens, in the same state: with
  -- encryption off or on. The ring's root is a login key's.
  pub open_held-for_values :
      (now : ℕ) (name purpose plain : String) (r : Ring) {k : SealKey}
      → r.root.format ≡ by_instance
      → for_values now name purpose r ≡ ok k
      → open_held now name purpose (seal k plain) r ≡ ok plain
  unfolding open_held open_value seal
  open_held-for_values now name purpose plain r {k} root h =
      elim (for_values-GivesKey now name purpose r h) [
        | encryption_off off e ↦
            let opens =
              open_sealed-seal lawful (instance_key r purpose) plain (ground (arith, root)) in
            rw e (ground (arith, root, opens))
        | encryption_on own on held free e ↦
            rw e (
              open_value-seal (instance_key r purpose) (get now name r) own purpose plain
                (inl held))
      ]

  settle-keys :
      (instance : SealKey) (fresh : Option crypto.Private) (a : Account)
      → ((settle instance fresh a).1.own ≡ a.own)
        × ((settle instance fresh a).1.old ≡ a.old)
        × ((settle instance fresh a).1.holds ≡ a.holds)
  unfolding settle renew_pair
  settle-keys instance fresh a = ground arith

  has_old-append :
      (k : String) (old : List String) (o : String)
      → has_old k (old ++ o ∷ []) ≡ (has_old k old || text_eq o k)
  has_old-append k [] o = ground arith
  has_old-append k (j ∷ old) o = ground (arith, has_old-append k old o)

  with_own-IsAtHand :
      (k : String) (own : Option String) (a : Account) → IsAtHand k a → IsAtHand k (with_own own a)
  with_own-IsAtHand k none a h = h
  with_own-IsAtHand k (some j) a h = elim (Option-cases a.own) [
    | inl no_own ↦ ground (arith, no_own, h)
    | inr (o, held) ↦ ground (arith, held, h, has_old-append k a.old o, eq_iff o k)
  ]

  turned-account :
      (now : ℕ) (fresh : Option crypto.Private) (name : String) (own : Option String)
      (on hold : Bool) (r : Ring)
      → (turn now fresh name own on hold r).1.accounts name
        ≡ (settle (instance_key r pairs_purpose) fresh (turning own on hold (get now name r))).1
  unfolding turn keep_turned
  turned-account now fresh name own on hold r = ground (arith, eq_refl name)

  still_held : (later : ℕ) (a : Account) → 0 < a.holds → expire later a ≡ a
  unfolding expire
  still_held later a h = ground (arith, h)

  -- A change of the own key loses no value: what was sealed under a key at hand before `Hold`, the one
  -- held or one that it replaced, opens afterwards at any time while it holds, whichever key is taken
  -- and whether encryption is turned on or off.
  pub open_held-turn :
      (now later : ℕ) (fresh : Option crypto.Private) (name purpose plain k : String)
      (own : Option String) (on : Bool) (r : Ring)
      → IsAtHand k (get now name r)
      → open_held later name purpose
          (seal (own_key k purpose) plain)
          (turn now fresh name own on true r).1
        ≡ ok plain
  unfolding open_held expire
  open_held-turn now later fresh name purpose plain k own on r h =
      let before = turning own on true (get now name r) in
      let after = (settle (instance_key r pairs_purpose) fresh before).1 in
      let (same_own, same_old, same_holds) =
        settle-keys (instance_key r pairs_purpose) fresh before in
      let at_hand : IsAtHand k after = elim (with_own-IsAtHand k own (get now name r) h) [
        | inl e ↦ inl (same_own ∙ e)
        | inr e ↦ inr (ap (has_old k) same_old ∙ e)
      ] in
      let kept : get later name (turn now fresh name own on true r).1 ≡ after =
        ap (expire later) (turned-account now fresh name own on true r)
        ∙ still_held later after (ground (arith, same_holds)) in
      rw kept (
        open_value-seal (instance_key (turn now fresh name own on true r).1 purpose) after k purpose
          plain at_hand)
