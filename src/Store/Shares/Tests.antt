-- ===== src/Store/Shares/Tests.antt =====
-- Access by a share, an invitation and its answers.
use alborz.Prelude.{
  String, true, false, List, [], ◌∷◌, some, ok, ◌≡◌, ◌≢◌, refl, inr, arith, eq_iff, ltb, ◌==◌, ◌&&◌,
  ◌||◌,
}
use alborz.Store.Types.{own, write, live, access_of}
use alborz.Store.Keys.{Key, key_eq}
use alborz.Store.Stored.{Stored}
use alborz.Store.Rows.{lookup, insert, remove}
use alborz.Store.Tx.{
  Db, view, update, get, find, get_raw, put, put_raw, opened, delete, on_keys, each, scan,
  scan_rows, decode_all,
}
use alborz.Store.Names.{collection_key, shares_of}
use alborz.Store.Access.{allowed, may}
use alborz.Store.Access.Sound.{Permits}
use alborz.Store.Collections.{change}
use alborz.Store.Shares.{
  answered, must_hold, put_share, put_share_in, answer, answer_in, remove_share, remove_share_in,
}
use alborz.Store.Shares.Answers.{answers, last_answer, Stands, live-answers}
use alborz.Store.Shares.Grants.{may-Permits, may-answer_no, may-remove_share}
use alborz.Store.Shares.Accept.{may-answer_yes}
use alborz.Store.Sample.{open_file, work, work_calendar, to_bob, invitation, shared, own_only}

bob_may : may work "bob" 50 shared ≡ ok (work_calendar, write)
unfolding may view allowed get find get_raw opened lookup key_eq live access_of
bob_may = refl

may-Permits_example : Permits shared.rows work "bob" 50 work_calendar write
may-Permits_example = may-Permits work "bob" 50 shared bob_may

-- A share of ann's to herself, which an owner's answer may meet.
abbrev ann_shared : Db
ann_shared = record {
  rows =
      (Key.share "ann" "work" "ann", Stored.share (record to_bob { to = "ann" })) ∷ own_only.rows;
  held = tt;
}

abbrev after_no : Db
after_no = (answer work "ann" false 9 ann_shared).1

abbrev audience : List String
audience = "ann" ∷ "bob" ∷ "bob" ∷ []

ann_leaves : answer work "ann" false 9 ann_shared ≡ (ok (tt, "ann" ∷ "ann" ∷ "ann" ∷ []), after_no)
unfolding answer answer_in answered change each scan scan_rows decode_all shares_of update get find
    put put_raw insert get_raw opened lookup key_eq
ann_leaves = refl

ann_looks : may work "ann" 10 after_no ≡ ok (work_calendar, own)
unfolding answer answer_in answered change each scan scan_rows decode_all shares_of update get find
    put put_raw insert get_raw opened lookup key_eq may view allowed
ann_looks = refl

may-answer_no_example : (work_calendar.owner ≡ "ann") × (own ≡ own)
may-answer_no_example = may-answer_no work "ann" 9 10 ann_shared ann_leaves ann_looks

abbrev after_removal : Db
after_removal = (remove_share work "ann" ann_shared).1

ann_is_removed : remove_share work "ann" ann_shared ≡ (ok (tt, "ann" ∷ "ann" ∷ []), after_removal)
unfolding remove_share remove_share_in must_hold change each scan scan_rows decode_all shares_of
    update get_raw opened lookup key_eq on_keys remove delete
ann_is_removed = refl

ann_still_looks : may work "ann" 10 after_removal ≡ ok (work_calendar, own)
unfolding remove_share remove_share_in must_hold change each scan scan_rows decode_all shares_of
    update get find get_raw opened lookup key_eq on_keys remove delete may view allowed
ann_still_looks = refl

may-remove_share_example : (work_calendar.owner ≡ "ann") × (own ≡ own)
may-remove_share_example = may-remove_share work "ann" 10 ann_shared ann_is_removed ann_still_looks

abbrev after_invitation : Db
after_invitation = (put_share invitation own_only).1

abbrev after_yes : Db
after_yes = (answer work "bob" true 9 after_invitation).1

bob_is_invited : put_share invitation own_only ≡ (ok (tt, "ann" ∷ "bob" ∷ []), after_invitation)
unfolding put_share put_share_in must_hold change each scan scan_rows decode_all shares_of update
    get_raw opened lookup key_eq on_keys put put_raw insert
bob_is_invited = refl

bob_joins : answer work "bob" true 9 after_invitation ≡ (ok (tt, audience), after_yes)
unfolding answer answer_in answered put_share put_share_in must_hold change each scan scan_rows
    decode_all shares_of update get find get_raw opened lookup key_eq on_keys put put_raw insert
bob_joins = refl

calendar_there : lookup (collection_key work) own_only.rows ≡ some (Stored.collection work_calendar)
unfolding lookup key_eq
calendar_there = refl

not_bobs : work_calendar.owner ≢ "bob"
not_bobs e = let differ : false ≡ true = (eq_iff "ann" "bob").1 e in cc

may-answer_yes_example : may work "bob" 50 after_yes ≡ ok (work_calendar, access_of invitation)
may-answer_yes_example =
    may-answer_yes invitation 9 50 own_only work_calendar bob_is_invited bob_joins calendar_there
      not_bobs refl refl (inr (omega arith))

live-answers_example :
    (live (answers (answered invitation false 3) ((true, 4) ∷ [])) 50 ≡ (
      last_answer false ((true, 4) ∷ []) && (invitation.expires == 0 || ltb 50 invitation.expires)))
    × Stands
        (answers (answered invitation false 3) ((true, 4) ∷ []))
        (last_answer false ((true, 4) ∷ []))
    × ((answers (answered invitation false 3) ((true, 4) ∷ [])).write ≡ invitation.write)
live-answers_example = live-answers invitation false 3 ((true, 4) ∷ []) 50
