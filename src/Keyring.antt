-- ===== src/Keyring.antt =====
-- internal/keyring: each account's own key while something holds it, and its key pair.
pub mod Ops
pub mod Open
pub mod Expiry
pub mod Turn
pub mod Tests
use text.Mathlib.Text.{◌==◌ as text_eq}
use Prim.Native.String.{◌++◌ as ◌<>◌}
use alborz.Prelude.{
  ℕ, ◌+◌, ◌-◌, String, Bool, true, false, not, ◌&&◌, ◌||◌, List, [], ◌∷◌, ◌++◌, map, Option, none,
  some, Result, ok, err, ltb, ◌==◌, if◌then◌else◌,
}
use alborz.Seal.{
  Crypto, SealError, SealKey, Root, Sealed, empty, bytes, by_account, format_of, seal, open_sealed,
  account_root, key_for,
}

-- `ErrLocked`, and a key pair that could not be made.
pub data KeyringError : Type 0 where
  locked_out no_pair : KeyringError
  not_opened : SealError → KeyringError

-- `Owner`.
abbrev pub pairs_purpose : String
pairs_purpose = "alborz.keys"

module _ ⦃crypto : Crypto⦄ where
  pub record Wrap : Type 0 where
    pub to : String
    pub wrapped : crypto.Wrapped

  pub record RetiredPair : Type 0 where
    pub id : String
    pub private : Sealed

  pub record PairRecord : Type 0 where
    pub public : crypto.Public
    pub private : Sealed
    pub retired : List RetiredPair

  -- `account`. Its map of derived keys is a cache, and is left out. `id` is "" before it has a pair.
  pub record Account : Type 0 where
    pub public : Option crypto.Public
    pub id : String
    pub private : Sealed
    pub opened : Option crypto.Private
    pub retired : List RetiredPair
    pub own : Option String
    pub old : List String
    pub on : Bool
    pub holds : ℕ
    pub until : ℕ

  abbrev pub no_account : Account
  no_account = record {
    public = none;
    id = "";
    private = empty;
    opened = none;
    retired = [];
    own = none;
    old = [];
    on = false;
    holds = 0;
    until = 0;
  }

  -- `Ring`; an account that is not in its map is the empty one. `stored` are the records of pairs.
  pub record Ring : Type 0 where
    pub root : Root
    pub accounts : String → Account
    pub stored : String → Option PairRecord

  abbrev pub is_by_account : Sealed → Bool
  is_by_account s = format_of s == by_account

  -- `(*account).take`, of a pair whose public key can be read.
  abbrev pub take : PairRecord → Account → Account
  take rec a = record a {
    public = some rec.public;
    id = crypto.id_of rec.public;
    private = rec.private;
    retired = rec.retired;
    on = is_by_account rec.private;
  }

  -- `expire`.
  unfoldable pub expire : ℕ → Account → Account
  expire now a = if ltb 0 a.holds || ltb now a.until then a else record a {
    own = none;
    old = [];
    opened = if is_by_account a.private then none else a.opened;
    on = is_by_account a.private;
  }

  abbrev pub set_account : String → Account → Ring → Ring
  set_account name a r = record r {
    accounts = λ other. if text_eq name other then a else r.accounts other;
  }

  -- `get`: the account, with keys that nothing holds forgotten.
  abbrev pub get : ℕ → String → Ring → Account
  get now name r = expire now (r.accounts name)

  abbrev pub instance_key : Ring → String → SealKey
  instance_key r purpose = key_for r.root purpose

  -- `(*account).key` of an own key.
  abbrev pub own_key : String → String → SealKey
  own_key own purpose = key_for (account_root own) purpose

  abbrev pub or_else : Option String → Option String → Option String
  or_else none o = o
  or_else (some x) o = some x

  abbrev pub plain_of : {E : Type 0} → Result E String → Option String
  plain_of (ok plain) = some plain
  plain_of (err e) = none

  abbrev pub try_own : Option String → String → Sealed → Option String
  try_own none purpose s = none
  try_own (some own) purpose s = plain_of (open_sealed (own_key own purpose) s)

  -- The first of the replaced keys that opens it.
  unfoldable pub try_old : List String → String → Sealed → Option String
  unfolding open_sealed
  try_old [] purpose s = none
  try_old (k ∷ old) purpose s =
      or_else (plain_of (open_sealed (own_key k purpose) s)) (try_old old purpose s)

  abbrev pub or_locked : Option String → Result KeyringError String
  or_locked none = err locked_out
  or_locked (some plain) = ok plain

  abbrev pub instance_opened : Result SealError String → Result KeyringError String
  instance_opened (ok plain) = ok plain
  instance_opened (err e) = err (not_opened e)

  -- `(*Ring).open`.
  unfoldable pub open_value : SealKey → Account → String → Sealed → Result KeyringError String
  unfolding try_old open_sealed
  open_value instance_key a purpose s =
      if not (is_by_account s)
      then instance_opened (open_sealed instance_key s)
      else or_locked (or_else (try_own a.own purpose s) (try_old a.old purpose s))

  abbrev pub read_private : Result KeyringError String → Option crypto.Private
  read_private (ok raw) = crypto.new_private raw
  read_private (err e) = none

  -- `parse`.
  unfoldable pub parse : SealKey → Account → Sealed → Option crypto.Private
  unfolding open_value
  parse instance_key a s = read_private (open_value instance_key a pairs_purpose s)

  abbrev pub has_pair : Account → Bool
  has_pair a = elim a.public [ none ↦ false | some p ↦ true ]

  abbrev pub is_some : {A : Type 0} → Option A → Bool
  is_some none = false
  is_some (some x) = true

  -- `privateKey`, and the account with it opened.
  unfoldable pub private_key : SealKey → Account → Option crypto.Private
  unfolding parse
  private_key instance_key a =
      if not (is_some a.opened) && has_pair a then parse instance_key a a.private else a.opened

  -- `locked`.
  unfoldable pub is_locked : SealKey → Account → Bool
  unfolding private_key
  is_locked instance_key a =
      a.on && (not (is_some a.own) || (has_pair a && not (is_some (private_key instance_key a))))

  -- The key that the pair goes under, if it is at hand.
  abbrev pub target_key : SealKey → Account → Option SealKey
  target_key instance_key a =
      if a.on
      then (elim a.own [ none ↦ none | some own ↦ some (own_key own pairs_purpose) ])
      else some instance_key

  abbrev pub resealed : SealKey → RetiredPair → Option crypto.Private → RetiredPair
  resealed target old none = old
  resealed target old (some p) = record old { private = seal target (crypto.private_bytes p) }

  -- The retired pairs that open, sealed under the target again.
  unfoldable pub reseal : SealKey → SealKey → Account → List RetiredPair → List RetiredPair
  unfolding parse seal
  reseal instance_key target a [] = []
  reseal instance_key target a (old ∷ rest) =
      resealed target old (parse instance_key a old.private) ∷ reseal instance_key target a rest

  -- The account with this pair, its private key under the target.
  abbrev pub with_pair : SealKey → crypto.Private → List RetiredPair → Account → Account
  with_pair target p retired a =
      record (take
        (record {
          public = crypto.public_of p;
          private = seal target (crypto.private_bytes p);
          retired = retired;
        })
        a) { opened = some p; on = target.format == by_account }

  abbrev pub retire_pair :
      SealKey → String → Option crypto.Private → List RetiredPair → List RetiredPair
  retire_pair target id none retired = retired
  retire_pair target id (some p) retired =
      retired ++ record { id = id; private = seal target (crypto.private_bytes p) } ∷ []

  abbrev pub make_pair :
      SealKey
      → Option crypto.Private
      → List RetiredPair
      → Account
      → Result KeyringError Bool × Account
  make_pair target none retired a = (err no_pair, a)
  make_pair target (some p) retired a = (ok true, with_pair target p retired a)

  -- The end of `settle`: the pair that opened goes under the target, or where encryption is on is
  -- retired for the fresh one; `none` is a pair that could not be made.
  unfoldable pub renew_pair :
      SealKey
      → Option crypto.Private
      → Option crypto.Private
      → Account
      → Result KeyringError Bool × Account
  unfolding seal
  renew_pair target fresh none a = make_pair target fresh a.retired a
  renew_pair target fresh (some p) a =
      if a.on
      then make_pair target fresh (retire_pair target a.id (some p) a.retired) a
      else make_pair target (some p) a.retired a

  -- `settle`: whether the pair changed, and the account afterwards.
  unfoldable pub settle :
      SealKey → Option crypto.Private → Account → Result KeyringError Bool × Account
  unfolding private_key reseal renew_pair open_sealed
  settle instance_key fresh a = elim (target_key instance_key a) [
    | none ↦ (ok false, a)
    | some target ↦
        let p = private_key instance_key a in
        let held = record a { opened = p } in
        if has_pair a && is_some (plain_of (open_sealed target a.private))
        then (ok false, a)
        else if not (is_some p) && has_pair a
        then (ok false, held)
        else renew_pair target fresh p
            (record held { retired = reseal instance_key target held a.retired })
  ]
