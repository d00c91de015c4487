-- ===== src/Seal.antt =====
-- internal/seal: sealed values, their format byte and the keys that open them.
use Prim.Native.String.{◌++◌ as ◌<>◌}
use alborz.Prelude.{
  ℕ, String, true, not, ◌&&◌, ◌||◌, Option, none, some, Result, ok, err, ◌≡◌, arith, ◌==◌,
  if◌then◌else◌,
}

abbrev pub by_instance : ℕ
by_instance = 1

abbrev pub by_account : ℕ
by_account = 2

pub data SealError : Type 0 where
  err_format err_open : SealError

-- What the packages take from the standard library: AES-256-GCM under a secret, which covers the
-- format byte, the derivation of secrets, and the key pairs and wraps of crypto/hpke. A nonce is part
-- of what `encrypt` gives.
pub record Crypto : Type 1 where
  pub Body : Type 0
  pub encrypt : (secret : String) (format : ℕ) (plain : String) → Body
  pub decrypt : (secret : String) (format : ℕ) (body : Body) → Option String
  pub derive : (secret info : String) → String
  pub Private : Type 0
  pub Public : Type 0
  pub public_of : Private → Public
  pub id_of : Public → String
  pub private_bytes : Private → String
  pub new_private : String → Option Private
  pub Wrapped : Type 0
  pub wrap : (to : Public) (info secret : String) → Wrapped
  pub unwrap : (with_key : Private) (info : String) (wrapped : Wrapped) → Option String

-- What the algorithms promise: what was sealed opens again under the same key, and what opens under a
-- key was sealed under it, which holds but for a chance too small to meet; likewise for a wrap.
pub record IsLawful (c : Crypto) : Type 0 where
  pub decrypt-encrypt :
      (secret : String) (format : ℕ) (plain : String)
      → c.decrypt secret format (c.encrypt secret format plain) ≡ some plain
  pub authentic :
      (other secret : String) (format : ℕ) (plain found : String)
      → c.decrypt other format (c.encrypt secret format plain) ≡ some found
      → other ≡ secret
  pub new_private-private_bytes : (p : c.Private) → c.new_private (c.private_bytes p) ≡ some p
  pub unwrap-wrap :
      (p : c.Private) (info secret : String)
      → c.unwrap p info (c.wrap (c.public_of p) info secret) ≡ some secret
  pub wrap_authentic :
      (p : c.Private) (to : c.Public) (info secret found : String)
      → c.unwrap p info (c.wrap to info secret) ≡ some found
      → found ≡ secret

-- `Key`.
pub record SealKey : Type 0 where
  pub secret : String
  pub format : ℕ

-- `Root`.
pub record Root : Type 0 where
  pub secret : String
  pub format : ℕ

-- `NewKey`, `NewAccountKey` and `AccountRoot`.
abbrev pub new_key : String → SealKey
new_key secret = record { secret = secret; format = by_instance }

abbrev pub new_account_key : String → SealKey
new_account_key secret = record { secret = secret; format = by_account }

abbrev pub account_root : String → Root
account_root secret = record { secret = secret; format = by_account }

module _ ⦃crypto : Crypto⦄ where
  -- A sealed value: nothing, or a format byte and what follows it.
  pub data Sealed : Type 0 where
    empty : Sealed
    bytes : (format : ℕ) (body : crypto.Body) → Sealed

  -- `Format`.
  abbrev pub format_of : Sealed → ℕ
  format_of empty = 0
  format_of (bytes format body) = format

  -- `(*Key).Seal` and `(*Key).Open`.
  unfoldable pub seal : SealKey → String → Sealed
  seal k plain = bytes k.format (crypto.encrypt k.secret k.format plain)

  abbrev opened : Option String → Result SealError String
  opened none = err err_open
  opened (some plain) = ok plain

  unfoldable pub open_sealed : SealKey → Sealed → Result SealError String
  open_sealed k empty = err err_format
  open_sealed k (bytes format body) =
      if not (format == by_instance) && not (format == by_account)
      then err err_format
      else opened (crypto.decrypt k.secret format body)

  -- `(Root).Key`.
  abbrev pub key_for : Root → String → SealKey
  key_for r purpose = record {
    secret = crypto.derive r.secret ("alborz seal " <> purpose);
    format = r.format;
  }

  abbrev pub IsFormat : ℕ → Type 0
  IsFormat format = (format == by_instance || format == by_account) ≡ true

  -- What a key sealed it opens.
  pub open_sealed-seal :
      IsLawful crypto
      → (k : SealKey) (plain : String) → IsFormat k.format
      → open_sealed k (seal k plain) ≡ ok plain
  unfolding open_sealed seal
  open_sealed-seal lawful k plain h =
      ground (arith, lawful.decrypt-encrypt k.secret k.format plain, h)
