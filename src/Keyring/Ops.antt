-- ===== src/Keyring/Ops.antt =====
-- The methods of a ring, each under its lock.
use text.Mathlib.Text.{◌==◌ as text_eq}
use alborz.Prelude.{
  ℕ, ◌+◌, ◌-◌, String, Bool, true, false, not, ◌&&◌, ◌||◌, List, [], ◌∷◌, ◌++◌, Option, none, some,
  Result, ok, err, ◌==◌, if◌then◌else◌,
}
use alborz.Seal.{Crypto, SealKey, Sealed, format_of, open_sealed}
use alborz.Keyring.{
  KeyringError, locked_out, Wrap, RetiredPair, PairRecord, Account, Ring, expire, set_account, get,
  instance_key, own_key, open_value, parse, private_key, is_locked, settle, plain_of, pairs_purpose,
  is_some,
}

module _ ⦃crypto : Crypto⦄ where
  -- `(*account).record`, of an account that has a pair.
  abbrev record_of : Account → Option PairRecord
  record_of a = elim a.public [
    | none ↦ none
    | some public ↦ some (record { public = public; private = a.private; retired = a.retired })
  ]

  abbrev write_record : String → Option PairRecord → Ring → Ring
  write_record name rec r = record r {
    stored = λ other. if text_eq name other then rec else r.stored other;
  }

  -- The own key that an account takes; the one it had goes to the old ones.
  abbrev pub with_own : Option String → Account → Account
  with_own none a = a
  with_own (some k) a = elim a.own [
    | none ↦ record a { own = some k }
    | some own ↦ if text_eq own k then a else record a { own = some k; old = a.old ++ own ∷ [] }
  ]

  -- `turn` as far as `settle`: the account with its key taken, a hold counted and its switch set.
  abbrev pub turning : Option String → Bool → Bool → Account → Account
  turning own on hold a = record (with_own own a) {
    holds = if hold then a.holds + 1 else a.holds;
    on = on;
  }

  -- What `turn` leaves: the record is written where the pair changed.
  unfoldable pub keep_turned :
      String → Ring → Result KeyringError Bool × Account → Result KeyringError (Unit {0}) × Ring
  keep_turned name r (err e, a) = (err e, set_account name a r)
  keep_turned name r (ok false, a) = (ok tt, set_account name a r)
  keep_turned name r (ok true, a) = (ok tt, write_record name (record_of a) (set_account name a r))

  -- `turn`, which `Hold` and `Turn` call.
  unfoldable pub turn :
      ℕ
      → Option crypto.Private
      → String
      → Option String
      → Bool
      → Bool
      → Ring
      → Result KeyringError (Unit {0}) × Ring
  unfolding settle keep_turned
  turn now fresh name own on hold r =
      keep_turned name r
        (settle (instance_key r pairs_purpose) fresh (turning own on hold (get now name r)))

  -- The function that `Hold` returns.
  unfoldable pub release : ℕ → String → Ring → Ring
  unfolding expire
  release now name r =
      let a = r.accounts name in set_account name (expire now (record a { holds = a.holds - 1 })) r

  -- `Retire`.
  unfoldable pub retire : ℕ → String → List String → Ring → Ring
  retire now name keys r =
      let a = get now name r in set_account name (record a { old = a.old ++ keys; opened = none }) r

  abbrev any_retired : List RetiredPair → Bool
  any_retired [] = false
  any_retired (p ∷ ps) = true

  -- `Settled`.
  unfoldable pub settled : ℕ → String → Ring → Ring
  settled now name r =
      let a = get now name r in
      let clean = record a { old = []; retired = [] } in
      if any_retired a.retired
      then write_record name (record_of clean) (set_account name clean r)
      else set_account name clean r

  abbrev pub started_over : Option String → Account → Account
  started_over own a = record a {
    public = none;
    opened = none;
    retired = [];
    own = own;
    old = [];
    on = is_some own;
  }

  -- `Replace`. Where no pair can be made the source panics, and here an error comes back.
  unfoldable pub replace :
      ℕ
      → Option crypto.Private
      → String
      → Option String
      → Ring
      → Result KeyringError (Unit {0}) × Ring
  unfolding settle keep_turned
  replace now fresh name own r =
      keep_turned name r
        (settle (instance_key r pairs_purpose) fresh (started_over own (get now name r)))

  -- `Lease`.
  unfoldable pub lease : ℕ → String → ℕ → Ring → Ring
  lease now name d r =
      let a = get now name r in
      set_account name (if is_some a.own then record a { until = now + d } else a) r

  -- `On`, `Locked`, `Own` and `ID`.
  abbrev pub on : ℕ → String → Ring → Bool
  on now name r = (get now name r).on

  abbrev pub locked : ℕ → String → Ring → Bool
  locked now name r = is_locked (instance_key r pairs_purpose) (get now name r)

  abbrev pub own : ℕ → String → Ring → Option String
  own now name r = (get now name r).own

  abbrev pub id : ℕ → String → Ring → String
  id now name r = (get now name r).id

  -- `For`.
  unfoldable pub for_values : ℕ → String → String → Ring → Result KeyringError SealKey
  unfolding is_locked expire
  for_values now name purpose r =
      let a = get now name r in
      if not a.on
      then ok (instance_key r purpose)
      else if is_locked (instance_key r pairs_purpose) a
      then err locked_out
      else elim a.own [ none ↦ err locked_out | some k ↦ ok (own_key k purpose) ]

  -- `Open`.
  unfoldable pub open_held : ℕ → String → String → Sealed → Ring → Result KeyringError String
  unfolding open_value expire
  open_held now name purpose s r = open_value (instance_key r purpose) (get now name r) purpose s

  -- `Stale`.
  unfoldable pub stale : ℕ → String → String → Sealed → Ring → Bool
  unfolding for_values open_sealed
  stale now name purpose s r = elim (for_values now name purpose r) [
    | err e ↦ false
    | ok k ↦ not (format_of s == k.format) || not (is_some (plain_of (open_sealed k s)))
  ]

  -- `Wrap`; `none` is an account without a pair. hpke.Seal to a public key that was read is taken to
  -- succeed.
  unfoldable pub wrap : ℕ → String → String → String → Ring → Option Wrap
  unfolding expire
  wrap now name secret info r =
      let a = get now name r in
      elim a.public [
        | none ↦ none
        | some public ↦ some (record { to = a.id; wrapped = crypto.wrap public info secret })
      ]

  -- The retired pairs of the wrap, until one opens.
  unfoldable pub retired_key :
      SealKey → Account → String → List RetiredPair → Option crypto.Private → Option crypto.Private
  unfolding parse
  retired_key instance_key a to [] p = p
  retired_key instance_key a to (old ∷ rest) p =
      retired_key instance_key a to rest
        (if not (is_some p) && text_eq to old.id then parse instance_key a old.private else p)

  -- The private key at hand for a wrap.
  unfoldable pub key_of_wrap : SealKey → Account → Wrap → Option crypto.Private
  unfolding private_key retired_key
  key_of_wrap instance_key a w =
      retired_key instance_key a w.to a.retired
        (if text_eq w.to a.id then private_key instance_key a else none)

  abbrev pub unwrap_with : String → Wrap → Option crypto.Private → Option String
  unwrap_with info w none = none
  unwrap_with info w (some p) = crypto.unwrap p info w.wrapped

  -- `Unwrap`, the wraps in the order that the map gives them.
  unfoldable pub unwrap : ℕ → List (String × Wrap) → String → Ring → Option String
  unfolding key_of_wrap expire
  unwrap now [] info r = none
  unwrap now ((name, w) ∷ wraps) info r =
      let rest = unwrap now wraps info r in
      elim (unwrap_with info w (key_of_wrap (instance_key r pairs_purpose) (get now name r) w)) [
        | some secret ↦ some secret
        | none ↦ rest
      ]
