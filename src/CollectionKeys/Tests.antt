-- ===== src/CollectionKeys/Tests.antt =====
-- Ann's calendar under its own key, which changes, and the same calendar for one who has no key.
use text.Mathlib.Text.{◌==◌ as text_eq}
use alborz.Prelude.{
  ℕ, String, true, List, [], ◌∷◌, All, none, some, ok, if◌then◌else◌, ◌≡◌, ◌⊎◌, refl,
}
use alborz.Seal.{bytes, by_account, by_instance, new_key, new_account_key, seal, open_sealed}
use alborz.Keyring.{
  no_account, get, instance_key, pairs_purpose, private_key, expire, open_value, parse, try_old,
}
use alborz.Keyring.Ops.{wrap, unwrap, key_of_wrap, retired_key}
use alborz.Keyring.Tests.{plain_crypto, plain_crypto-IsLawful, ring_on}
use alborz.CollectionKeys.{
  KeysError, key_locked, ValueKey, KeyRecord, key_record, CollectionKey, no_key, KeysTx, collection,
  read_key, values, open_all,
}
use alborz.CollectionKeys as Keys
use alborz.CollectionKeys.Ops.{rekey, encrypt, decrypt, put_value, find_wrap}
use alborz.CollectionKeys.Access
use alborz.CollectionKeys.Access.{
  find_value, put, sealer, Body, get_then, put_then, scan_then, finish, begin, update,
}
use alborz.CollectionKeys.Reads.{IsAllRead, update-IsAllRead}
use alborz.CollectionKeys.ReadBack.{get-put_back}
use alborz.CollectionKeys.Resealed.{inside, outside}
use alborz.CollectionKeys.Rekey.{rekeyed, renewed, values-rekey, OpensNot, rekey-OpensNot}
use alborz.CollectionKeys.Decrypt.{decrypt-encrypt}
use alborz.CollectionKeys.Holders.{rekey-find_wrap, pair_wrap, later, values-later}

abbrev sizes : String → ℕ
sizes s = if text_eq s "" then 0 else 32

abbrev work : String
work = "ann/work"

abbrev event : ValueKey
event = record { scope = some work; name = "event" }

abbrev a_setting : ValueKey
a_setting = record { scope = none; name = "setting" }

abbrev ann_key : KeyRecord
ann_key = record {
  wraps =
      (
        "ann",
        record { to = "pair"; wrapped = ("pair", "alborz.pim collection key ann/work", "secret") },
      )
      ∷ [];
  public = none;
}

abbrev sealed_file : KeysTx
sealed_file = record {
  instance_key = new_key "instance";
  ring = ring_on;
  now = 5;
  values =
      (event, bytes by_account ("secret", "lunch"))
      ∷ (a_setting, bytes by_instance ("instance", "on"))
      ∷ [];
  records = λ scope. if text_eq work scope then some (key_record ann_key) else none;
  held = λ scope. none;
  write = true;
  failed = none;
}

abbrev bare_file : KeysTx
bare_file = record sealed_file {
  values =
      (event, bytes by_instance ("instance", "lunch"))
      ∷ (a_setting, bytes by_instance ("instance", "on"))
      ∷ [];
  records = λ scope. none;
}

-- The account's own key is not at hand.
abbrev locked_file : KeysTx
locked_file = record sealed_file { ring = record ring_on { accounts = λ name. no_account } }

abbrev ann_collection : CollectionKey
ann_collection = record {
  rec = some ann_key;
  secret = "secret";
  key = some (new_account_key "secret");
}

abbrev with_held : CollectionKey → KeysTx → KeysTx
with_held c t = record t { held = λ other. if text_eq work other then some c else t.held other }

abbrev lunch : List (ValueKey × String)
lunch = (event, "lunch") ∷ []

abbrev holders : List String
holders = "ann" ∷ "bob" ∷ []

looked :
    collection sizes work sealed_file ≡ ok (ann_collection, with_held ann_collection sealed_file)
unfolding collection read_key unwrap key_of_wrap retired_key expire private_key parse open_value
    try_old open_sealed
looked = refl

found : values sizes work sealed_file ≡ ok (lunch, with_held ann_collection sealed_file)
unfolding values open_all Keys.open_value collection read_key unwrap key_of_wrap retired_key expire
    private_key parse open_value try_old open_sealed
found = refl

abbrev after_rekey : KeysTx
after_rekey =
    rekeyed work holders "fresh" ann_collection lunch (with_held ann_collection sealed_file)

rekeys : rekey sizes work holders "fresh" sealed_file ≡ ok (tt, after_rekey)
unfolding rekey values open_all Keys.open_value collection read_key unwrap key_of_wrap retired_key
    expire private_key parse open_value try_old open_sealed
rekeys = refl

values-rekey_example :
    (values sizes work after_rekey ≡ ok (lunch, after_rekey))
    × (outside work after_rekey.values ≡ outside work sealed_file.values)
values-rekey_example =
    values-rekey sizes plain_crypto-IsLawful work holders "fresh" sealed_file ((refl, tt), (tt, tt))
      found rekeys

rekey-OpensNot_example : All (λ row. OpensNot "secret" row.1) (inside work after_rekey.values)
rekey-OpensNot_example =
    rekey-OpensNot sizes plain_crypto-IsLawful work holders "fresh" "secret" sealed_file
      ((refl, tt), (tt, tt)) refl rekeys

rekey-find_wrap_example :
    (rec : KeyRecord) × (after_rekey.records work ≡ some (key_record rec))
    × (find_wrap "ann" rec.wraps
        ≡ wrap 5 "ann" "fresh" "alborz.pim collection key ann/work" ring_on)
rekey-find_wrap_example = rekey-find_wrap sizes work holders "fresh" "ann" sealed_file rekeys

holds_pair :
    key_of_wrap
      (instance_key ring_on pairs_purpose)
      (get 8 "ann" ring_on)
      (pair_wrap sealed_file work "fresh" "ann" "pair")
    ≡ some "pair"
unfolding key_of_wrap retired_key expire private_key parse open_value try_old open_sealed
holds_pair = refl

paired : (get 5 "ann" ring_on).public ≡ some "pair"
unfolding expire
paired = refl

values-later_example :
    (after : KeysTx) × (collection sizes work (later 8 ring_on after_rekey)
      ≡ ok (
        renewed work holders "fresh" ann_collection (with_held ann_collection sealed_file),
        after,
      ))
    × (values sizes work after ≡ ok (lunch, after))
values-later_example =
    values-later plain_crypto-IsLawful sizes work holders "fresh" "ann" sealed_file "pair" 8 ring_on
      ((refl, tt), (tt, tt)) refl looked refl found rekeys refl paired holds_pair

bare_looked : collection sizes work bare_file ≡ ok (no_key, with_held no_key bare_file)
unfolding collection read_key
bare_looked = refl

bare_found : values sizes work bare_file ≡ ok (lunch, bare_file)
unfolding values open_all Keys.open_value open_sealed
bare_found = refl

abbrev after_encrypt : KeysTx
after_encrypt = rekeyed work holders "fresh" no_key lunch (with_held no_key bare_file)

encrypts : encrypt sizes work holders "fresh" bare_file ≡ ok (tt, after_encrypt)
unfolding encrypt rekey values open_all Keys.open_value collection read_key open_sealed
encrypts = refl

decrypt-encrypt_example :
    (w : KeysTx) × (decrypt sizes work after_encrypt ≡ ok (tt, w))
    × (values sizes work w ≡ ok (lunch, w))
    × (w.records work ≡ none)
decrypt-encrypt_example =
    decrypt-encrypt sizes plain_crypto-IsLawful work holders "fresh" bare_file refl
      ((refl, tt), (tt, tt)) bare_looked refl bare_found encrypts

abbrev locked_collection : CollectionKey
locked_collection = record { rec = some ann_key; secret = ""; key = none }

locked_looked :
    collection sizes work locked_file
    ≡ ok (locked_collection, with_held locked_collection locked_file)
unfolding collection read_key unwrap key_of_wrap retired_key expire private_key parse open_value
    try_old open_sealed
locked_looked = refl

-- The event moves to the evening, where it was read.
abbrev move_event : Body
move_event = get_then event (λ read. elim read [
  | none ↦ finish none
  | some plain ↦ put_then event "dinner" (λ e. scan_then (λ k. true) (λ answer. finish answer.1))
])

update-IsAllRead_example :
    ((update sizes move_event sealed_file).0 ≡ none
      × IsAllRead sizes move_event (begin true sealed_file))
    ⊎ ((e : KeysError) × ((update sizes move_event sealed_file).0 ≡ some e)
        × ((update sizes move_event sealed_file).1 ≡ sealed_file))
update-IsAllRead_example = update-IsAllRead sizes move_event sealed_file

abbrev after_put : KeysTx
after_put = record (with_held ann_collection sealed_file) {
  values =
      (event, bytes by_account ("secret", "dinner"))
      ∷ (a_setting, bytes by_instance ("instance", "on"))
      ∷ [];
}

puts : put sizes event "dinner" sealed_file ≡ (none, after_put)
unfolding put sealer collection read_key unwrap key_of_wrap retired_key expire private_key parse
    open_value try_old open_sealed put_value seal
puts = refl

get-put_back_example :
    (Access.get sizes event after_put ≡ (some "dinner", after_put))
    × (find_value a_setting after_put.values ≡ find_value a_setting sealed_file.values)
get-put_back_example =
    get-put_back sizes plain_crypto-IsLawful event a_setting "dinner" sealed_file refl
      (λ scope c key h is. absurd cc) puts refl
