-- ===== src/Keyring/Turn.antt =====
-- What turning encryption on does to an account's pair, and to the wraps made to it.
use text.Mathlib.Text.{◌==◌ as text_eq}
use alborz.Prelude.{
  String, true, false, List, [], ◌∷◌, ◌++◌, All, none, some, ok, ◌≡◌, refl, inl, inr, sym, ap, ◌∙◌,
  arith, eq_refl, Option-cases, Result-cases, subst,
}
use alborz.Seal.{Crypto, IsLawful, SealKey, seal, open_sealed}
use alborz.Keyring.{
  Wrap, RetiredPair, Account, own_key, parse, private_key, read_private, pairs_purpose, settle,
  renew_pair, reseal, with_pair,
}
use alborz.Keyring.Ops.{retired_key, key_of_wrap}
use alborz.Keyring.Open.{open_value-seal}

module _ ⦃crypto : Crypto⦄ where
  -- The account's encryption is on, its own key is held, and its pair opens.
  pub record IsTurning (instance : SealKey) (a : Account) (own : String) (p : crypto.Private)
      : Type 0 where
    pub on : a.on ≡ true
    pub held : a.own ≡ some own
    pub public : a.public ≡ some (crypto.public_of p)
    pub opens : private_key instance a ≡ some p

  -- What `settle` makes of such an account: it stays, where its pair is under the own key already, or
  -- it gets a fresh pair under the own key and retires the one that it had.
  pub data Turns (instance : SealKey) (f : crypto.Private) (a : Account) (own : String)
      (p : crypto.Private) : Account → Type 0 where
    stays :
        {a' : Account} (plain : String)
        → open_sealed (own_key own pairs_purpose) a.private ≡ ok plain
        → a' ≡ a
        → Turns instance f a own p a'
    renews :
        {a' : Account}
        → a'.public ≡ some (crypto.public_of f)
        → a'.id ≡ crypto.id_of (crypto.public_of f)
        → a'.private ≡ seal (own_key own pairs_purpose) (crypto.private_bytes f)
        → a'.opened ≡ some f
        → a'.own ≡ some own
        → a'.old ≡ a.old
        → a'.retired
          ≡ reseal instance (own_key own pairs_purpose) (record a { opened = some p }) a.retired
            ++ record {
              id = a.id;
              private = seal (own_key own pairs_purpose) (crypto.private_bytes p);
            }
              ∷ []
        → Turns instance f a own p a'

  -- Where a pair that opens goes under an own key that it was not under, it is replaced: the account
  -- has a fresh pair, sealed under that key, and the pair that it had is the last of its retired
  -- ones. Where it was under it, nothing changes.
  pub settle-Turns :
      (instance : SealKey) (f : crypto.Private) (a : Account) (own : String) (p : crypto.Private)
      → IsTurning instance a own p
      → Turns instance f a own p (settle instance (some f) a).1
  unfolding settle renew_pair
  settle-Turns instance f a own p t = elim (Result-cases (open_sealed target a.private)) [
    | inr (plain, under) ↦ stays plain under (ground (arith, t.on, t.held, t.public, under))
    | inl (e, other) ↦
        let after : (settle instance (some f) a).1
            ≡ with_pair target f (resealed_all ++ retiring ∷ []) held =
          ground (arith, t.on, t.held, t.public, t.opens, other) in
        renews (ap (λ x. x.public) after) (ap (λ x. x.id) after) (ap (λ x. x.private) after)
          (ap (λ x. x.opened) after) (ap (λ x. x.own) after ∙ t.held) (ap (λ x. x.old) after)
          (ap (λ x. x.retired) after)
  ]
    where
      target : SealKey
      target = own_key own pairs_purpose

      resealed_all : List RetiredPair
      resealed_all = reseal instance target (record a { opened = some p }) a.retired

      held : Account
      held = record a { opened = some p; retired = resealed_all }

      retiring : RetiredPair
      retiring = record { id = a.id; private = seal target (crypto.private_bytes p) }

  -- No retired pair has the name of the account's own.
  abbrev pub IsApart : String → RetiredPair → Type 0
  IsApart id old = text_eq id old.id ≡ false

  retired_key-apart :
      (instance : SealKey) (a : Account) (to : String) (retired : List RetiredPair)
      (last : RetiredPair)
      → All (IsApart to) retired
      → to ≡ last.id
      → retired_key instance a to (retired ++ last ∷ []) none ≡ parse instance a last.private
  unfolding retired_key
  retired_key-apart instance a to [] last w e = ground (arith, e, eq_refl last.id)
  retired_key-apart instance a to (old ∷ retired) last (h, w) e =
      ground (arith, h, retired_key-apart instance a to retired last w e)

  reseal-IsApart :
      (instance target : SealKey) (a : Account) (id : String) (retired : List RetiredPair)
      → All (IsApart id) retired
      → All (IsApart id) (reseal instance target a retired)
  unfolding reseal
  reseal-IsApart instance target a id [] w = tt
  reseal-IsApart instance target a id (old ∷ retired) (h, w) =
      elim (Option-cases (parse instance a old.private)) [
        | inl fails ↦ (ground (arith, h, fails), reseal-IsApart instance target a id retired w)
        | inr (q, opens) ↦ (ground (arith, h, opens), reseal-IsApart instance target a id retired w)
      ]

  retired_key-held :
      (instance : SealKey) (a : Account) (to : String) (retired : List RetiredPair)
      (p : crypto.Private)
      → retired_key instance a to retired (some p) ≡ some p
  unfolding retired_key
  retired_key-held instance a to [] p = refl
  retired_key-held instance a to (old ∷ retired) p = retired_key-held instance a to retired p

  module _ (lawful : IsLawful crypto) where
    -- Turning encryption on, or to another own key, loses no share: the private key that opened the wraps
    -- made to the account's pair still comes to hand for them after `settle`, whether the pair stayed
    -- or was replaced. The fresh pair and the retired ones have other names than the account's.
    pub key_of_wrap-settle :
        (instance : SealKey) (f : crypto.Private) (a : Account) (own : String) (p : crypto.Private)
        (w : Wrap)
        → IsTurning instance a own p
        → w.to ≡ a.id
        → text_eq a.id (crypto.id_of (crypto.public_of f)) ≡ false
        → All (IsApart a.id) a.retired
        → key_of_wrap instance (settle instance (some f) a).1 w ≡ some p
    unfolding key_of_wrap parse
    key_of_wrap-settle instance f a own p w t to fresh apart =
        elim (settle-Turns instance f a own p t) [
          | stays plain under same ↦ rw same (
              ground
                (arith, to, t.opens, eq_refl a.id, retired_key-held instance a w.to a.retired p))
          | renews public id private opened now_own old retired ↦
              let a' : Account = (settle instance (some f) a).1 in
              let target : SealKey = own_key own pairs_purpose in
              let last : RetiredPair = record {
                id = a.id;
                private = seal target (crypto.private_bytes p);
              } in
              let earlier : List RetiredPair =
                reseal instance target (record a { opened = some p }) a.retired in
              let other : text_eq w.to a'.id ≡ false =
                ap (λ x. text_eq x a'.id) to ∙ ap (text_eq a.id) id ∙ fresh in
              let apart' : All (IsApart a.id) earlier =
                reseal-IsApart instance target (record a { opened = some p }) a.id a.retired
                  apart in
              let from_retired =
                retired_key-apart instance a' w.to earlier last
                  (subst (λ x. All (IsApart x) earlier) (sym to) apart') to in
              let opens =
                open_value-seal lawful instance a' own pairs_purpose (crypto.private_bytes p)
                  (inl now_own) in
              rw other (
                ap (λ x. retired_key instance a' w.to x none) retired
                ∙ from_retired
                ∙ ap read_private opens
                ∙ lawful.new_private-private_bytes p)
        ]
