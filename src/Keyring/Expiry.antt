-- ===== src/Keyring/Expiry.antt =====
-- Keys that nothing holds are forgotten, and while encryption is on the instance's key is not used.
use alborz.Prelude.{
  ℕ, ◌≤◌, String, true, false, [], none, some, ok, err, ◌≡◌, refl, if◌then◌else◌, inl, inr, arith,
  eq_refl, Bool-cases, Option-cases,
}
use alborz.Seal.{Crypto, SealKey, Sealed}
use alborz.Keyring.{
  locked_out, Ring, expire, get, instance_key, own_key, is_by_account, open_value, try_old,
  is_locked, pairs_purpose,
}
use alborz.Keyring.Ops.{release, for_values, open_held}

module _ ⦃crypto : Crypto⦄ where
  released :
      (now later : ℕ) (name : String) (r : Ring)
      → (r.accounts name).holds ≡ 1
      → (r.accounts name).until ≤ now
      → now ≤ later
      → ((get later name (release now name r)).own ≡ none)
        × ((get later name (release now name r)).old ≡ [])
        × ((get later name (release now name r)).on ≡ is_by_account (r.accounts name).private)
  unfolding release expire
  released now later name r one over le = ground (arith, one, over, le, eq_refl name)

  released_root : (now : ℕ) (name : String) (r : Ring) → (release now name r).root ≡ r.root
  unfolding release
  released_root now name r = refl

  -- After the last holder has released an account whose lease is over, and until something holds it
  -- again, no value sealed under a key of the account opens; and new values get no key where its
  -- pair is sealed under one, and the instance's key where it is not.
  pub open_held-release :
      (now later : ℕ) (name purpose : String) (s : Sealed) (r : Ring)
      → (r.accounts name).holds ≡ 1
      → (r.accounts name).until ≤ now
      → now ≤ later
      → is_by_account s ≡ true
      → (open_held later name purpose s (release now name r) ≡ err locked_out)
        × (for_values later name purpose (release now name r) ≡ (
            if is_by_account (r.accounts name).private
            then err locked_out
            else ok (instance_key r purpose)))
  unfolding open_held open_value try_old for_values is_locked
  open_held-release now later name purpose s r one over le sealed_so =
      let (no_own, no_old, on) = released now later name r one over le in
      let same : (release now name r).root ≡ r.root = released_root now name r in
      (
        ground (arith, sealed_so, no_own, no_old),
        elim (Bool-cases (is_by_account (r.accounts name).private)) [
          | inl pair ↦ ground (arith, pair, no_own, on)
          | inr plain ↦ ground (arith, plain, on, same)
        ],
      )

  -- The key for new values is the instance's exactly where the account's encryption is off: while it
  -- is on, it is derived from the own key that is held, and the account is not locked.
  pub data GivesKey (now : ℕ) (name purpose : String) (r : Ring) (k : SealKey) : Type 0 where
    encryption_off :
        (get now name r).on ≡ false → k ≡ instance_key r purpose → GivesKey now name purpose r k
    encryption_on :
        (own : String)
        → (get now name r).on ≡ true
        → (get now name r).own ≡ some own
        → is_locked (instance_key r pairs_purpose) (get now name r) ≡ false
        → k ≡ own_key own purpose
        → GivesKey now name purpose r k

  pub for_values-GivesKey :
      (now : ℕ) (name purpose : String) (r : Ring) {k : SealKey}
      → for_values now name purpose r ≡ ok k
      → GivesKey now name purpose r k
  unfolding for_values
  for_values-GivesKey now name purpose r {k} h = elim (Bool-cases (get now name r).on) [
    | inr off ↦ encryption_off off (ground (arith, off, h))
    | inl on ↦ elim (Bool-cases (is_locked (instance_key r pairs_purpose) (get now name r))) [
      | inl lock ↦ absurd (ground (arith, on, lock, h))
      | inr free ↦ elim (Option-cases (get now name r).own) [
        | inl none_held ↦ absurd (ground (arith, on, free, none_held, h))
        | inr (own, held) ↦ encryption_on own on held free (ground (arith, on, free, held, h))
      ]
    ]
  ]
