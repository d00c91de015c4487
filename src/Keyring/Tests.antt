-- ===== src/Keyring/Tests.antt =====
-- An account that turns its encryption on, changes its key and signs out.
use text.Mathlib.Text.{◌==◌ as text_eq}
use Prim.Native.String.{◌++◌ as ◌<>◌}
use alborz.Prelude.{
  String, Bool, true, false, ◌&&◌, Option, none, some, ok, err, if◌then◌else◌, ◌≡◌, refl, inl, ap,
  sym, arith, eq_refl, eq_iff,
}
use alborz.Seal.{Crypto, IsLawful, Root, Sealed, bytes, by_account, by_instance, seal, open_sealed}
use alborz.Keyring.{
  locked_out, Wrap, Account, no_account, Ring, get, instance_key, own_key, pairs_purpose,
  private_key, settle, expire, open_value, parse, try_old, is_locked,
}
use alborz.Keyring.Ops.{turn, release, for_values, open_held, key_of_wrap}
use alborz.Keyring.Open.{IsAtHand, open_held-turn}
use alborz.Keyring.Expiry.{open_held-release}
use alborz.Keyring.Turn.{IsTurning, key_of_wrap-settle}

abbrev when : Bool → String → Option String
when b plain = if b then some plain else none

-- A seal that tells its key and a wrap that tells its receiver stand for ones that hide them.
instance abbrev pub plain_crypto : Crypto
plain_crypto = record {
  Body = String × String;
  encrypt = λ secret format plain. (secret, plain);
  decrypt = λ secret format body. when (text_eq secret body.0) body.1;
  derive = λ secret info. secret <> info;
  Private = String;
  Public = String;
  public_of = λ p. p;
  id_of = λ p. p;
  private_bytes = λ p. p;
  new_private = λ s. some s;
  Wrapped = String × String × String;
  wrap = λ to info secret. (to, info, secret);
  unwrap = λ p info w. when (text_eq p w.0 && text_eq info w.1) w.2;
}

when-true : (b : Bool) (plain found : String) → when b plain ≡ some found → b ≡ true
when-true true plain found h = refl
when-true false plain found h = absurd cc

when-same : (b : Bool) (plain found : String) → when b plain ≡ some found → plain ≡ found
when-same true plain found h = cc
when-same false plain found h = absurd cc

pub plain_crypto-IsLawful : IsLawful plain_crypto
plain_crypto-IsLawful = record {
  decrypt-encrypt = λ secret format plain. ap (λ b. when b plain) (eq_refl secret);
  authentic = λ other secret format plain found h.
      (eq_iff other secret).0 (when-true (text_eq other secret) plain found h);
  new_private-private_bytes = λ p. refl;
  unwrap-wrap = λ p info secret. unwrap_wrap p info secret;
  wrap_authentic = λ p to info secret found h.
      sym (when-same (text_eq p to && text_eq info info) secret found h);
}
  where
    unwrap_wrap :
        (p info secret : String) → when (text_eq p p && text_eq info info) secret ≡ some secret
    unwrap_wrap p info secret = rw (eq_refl p, eq_refl info) refl

abbrev login_root : Root
login_root = record { secret = "root"; format = by_instance }

-- Ann's pair stands under the instance's key; one login holds her account.
abbrev ann : Account
ann = record no_account {
  public = some "pair";
  id = "pair";
  private = bytes by_instance ("rootalborz seal alborz.keys", "pair");
  own = some "k1";
  holds = 1;
}

abbrev ring : Ring
ring = record {
  root = login_root;
  accounts = λ name. if text_eq name "ann" then ann else no_account;
  stored = λ name. none;
}

abbrev ann_on : Account
ann_on = record ann { private = bytes by_account ("k1alborz seal alborz.keys", "pair"); on = true }

abbrev pub ring_on : Ring
ring_on = record ring { accounts = λ name. if text_eq name "ann" then ann_on else no_account }

mail_key : for_values 5 "ann" "mail" ring_on ≡ ok (own_key "k1" "mail")
unfolding for_values is_locked expire private_key parse open_value try_old open_sealed
mail_key = refl

held_key : IsAtHand "k1" (get 5 "ann" ring_on)
unfolding expire
held_key = inl refl

open_held-turn_example :
    open_held 7 "ann" "mail"
      (seal (own_key "k1" "mail") "hello")
      (turn 5 (some "fresh") "ann" (some "k2") true true ring_on).1
    ≡ ok "hello"
open_held-turn_example =
    open_held-turn plain_crypto-IsLawful 5 7 (some "fresh") "ann" "mail" "hello" "k1" (some "k2")
      true ring_on held_key

abbrev sealed_mail : Sealed
sealed_mail = bytes by_account ("k1alborz seal mail", "hello")

open_held-release_example :
    (open_held 9 "ann" "mail" sealed_mail (release 8 "ann" ring_on) ≡ err locked_out)
    × (for_values 9 "ann" "mail" (release 8 "ann" ring_on) ≡ err locked_out)
open_held-release_example =
    open_held-release 8 9 "ann" "mail" sealed_mail ring_on refl (omega arith) (omega arith) refl

-- Ann's encryption is being turned on: her pair opens under the instance's key.
abbrev ann_turning : Account
ann_turning = record ann { on = true }

ann_turns : IsTurning (instance_key ring pairs_purpose) ann_turning "k1" "pair"
unfolding private_key parse open_value try_old open_sealed
ann_turns = record { on = refl; held = refl; public = refl; opens = refl }

abbrev a_share : Wrap
a_share = record { to = "pair"; wrapped = ("pair", "info", "collection") }

key_of_wrap-settle_example :
    key_of_wrap
      (instance_key ring pairs_purpose)
      (settle (instance_key ring pairs_purpose) (some "fresh") ann_turning).1
      a_share
    ≡ some "pair"
key_of_wrap-settle_example =
    key_of_wrap-settle plain_crypto-IsLawful (instance_key ring pairs_purpose) "fresh" ann_turning
      "k1" "pair" a_share ann_turns refl refl tt
