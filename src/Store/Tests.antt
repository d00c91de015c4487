-- ===== src/Store/Tests.antt =====
-- Writes and removals of an object, and the deletion of its calendar.
use alborz.Prelude.{
  true, false, List, [], ◌∷◌, none, some, ok, err, ◌≡◌, ◌≢◌, refl, ap, arith, if◌then◌else◌,
}
use alborz.Store.Types.{not_found, live, access_of}
use alborz.Store.Keys.{Key, key_eq, key_eq_iff}
use alborz.Store.Stored.{Stored, number}
use alborz.Store.Rows.{lookup, insert, remove}
use alborz.Store.Tx.{
  Tx, Db, begin, update, get, find, get_raw, put, put_raw, opened, delete, on_keys, each, scan,
  scan_rows, decode_all,
}
use alborz.Store.Names.{object_key, shares_of}
use alborz.Store.Access.{allowed, writable}
use alborz.Store.Access.Sound.{MayWrite, MayWrite-writable}
use alborz.Store.Collections.{change, stamp, last_ctag, touch}
use alborz.Store.Collections.Stamp.{set_to}
use alborz.Store.Objects.{
  put_object, put_object_in, remove_object, remove_object_in, object, ask, other_holder,
  check_holder, index_uid, keep_object, drop_object,
}
use alborz.Store.Objects.Uids.{UidIndexed}
use alborz.Store.Objects.Unique
use alborz.Store.Objects.Unique.{Call, after_calls, after_calls-UidIndexed, uids_differ}
use alborz.Store.Objects.ReadBack.{
  Made, put_object-MayWrite, object-put_object, put_object-creator, object-remove_object,
}
use alborz.Store.Removal.{
  delete_collection, delete_in, clear_collection, delete_keys, leave_dropped,
}
use alborz.Store.Removal.Gone.{is_deleted, lookup-delete_collection}
use alborz.Store.Names.{objects_of, uids_of}
use alborz.Store.Collections.{publish}
use alborz.Store.Ctags.{CtagBounded, Bumps, put_object-Bumps}
use alborz.Store.Sample.{
  open_file, names_differ, work, shared, met, moved, with_met, with_moved, with_none,
}

bob_puts : put_object work "met.ics" "u1" "first" none "bob" 5 shared ≡ (ok met, with_met)
unfolding update put_object put_object_in writable allowed get find get_raw opened ask index_uid
    keep_object other_holder check_holder touch stamp last_ctag put put_raw lookup insert key_eq
    live access_of
bob_puts = refl

ann_puts : put_object work "met.ics" "u1" "second" none "ann" 6 with_met ≡ (ok moved, with_moved)
unfolding update put_object put_object_in writable allowed get find get_raw opened ask index_uid
    keep_object other_holder check_holder touch stamp last_ctag put put_raw lookup insert key_eq
    live access_of
ann_puts = refl

bob_removes : remove_object work "met.ics" none "bob" 7 with_met ≡ (ok tt, with_none)
unfolding update remove_object remove_object_in writable allowed get find get_raw opened ask
    drop_object touch stamp last_ctag put put_raw delete remove lookup insert key_eq live access_of
bob_removes = refl

nothing_stored : UidIndexed shared.rows "ann" "work"
unfolding lookup key_eq
nothing_stored = record { own_name = λ n o h. absurd cc; entry = λ n o h ne. absurd cc }

abbrev one_call : List Call
one_call = Unique.puts work "met.ics" "u1" "first" none "bob" 5 ∷ []

one_call-after : after_calls one_call shared ≡ with_met
unfolding after_calls
one_call-after = ap (λ x. x.1) bob_puts

met_there :
    lookup (Key.object "ann" "work" "met.ics") (after_calls one_call shared).rows
    ≡ some (Stored.object met)
unfolding lookup key_eq
met_there = rw one_call-after refl

after_calls-UidIndexed_example : UidIndexed (after_calls one_call shared).rows "ann" "work"
after_calls-UidIndexed_example =
    after_calls-UidIndexed names_differ one_call shared "ann" "work" nothing_stored

uid_not_empty : met.uid ≢ ""
uid_not_empty e = cc

uids_differ_example : met.name ≡ met.name
uids_differ_example =
    uids_differ names_differ one_call shared "ann" "work" "met.ics" "met.ics" met met nothing_stored
      met_there met_there refl uid_not_empty

put_object-MayWrite_example : MayWrite shared.rows work "bob" 5
put_object-MayWrite_example =
    put_object-MayWrite work "met.ics" "u1" "first" none "bob" 5 shared bob_puts

abbrev bob_tx : Tx
bob_tx = begin true shared

bob_may_write : MayWrite shared.rows work "bob" 5
bob_may_write = put_object-MayWrite work "met.ics" "u1" "first" none "bob" 5 shared bob_puts

MayWrite-writable_example : writable work "bob" 5 bob_tx ≡ ok (tt, bob_tx)
MayWrite-writable_example = MayWrite-writable work "bob" 5 bob_tx refl refl bob_may_write

object-put_object_example :
    (object work "met.ics" with_met ≡ ok met) × Made "met.ics" "u1" "first" "bob" 5 met
object-put_object_example =
    object-put_object work "met.ics" "u1" "first" none "bob" 5 shared bob_puts refl

met_held : lookup (object_key work "met.ics") with_met.rows ≡ some (Stored.object met)
unfolding lookup key_eq
met_held = refl

put_object-creator_example : (moved.creator ≡ "bob") × (moved.created ≡ 5) × (moved.uid ≡ "u1")
put_object-creator_example =
    put_object-creator work "met.ics" "u1" "second" none "ann" 6 with_met met ann_puts met_held

other_name : object_key work "new.ics" ≢ Key.object "ann" "work" "met.ics"
unfolding key_eq
other_name e =
    let differ : false ≡ true =
      (key_eq_iff (object_key work "new.ics") (Key.object "ann" "work" "met.ics")).1 e in
    cc

object-remove_object_example :
    (object work "met.ics" with_none ≡ err not_found)
    × (lookup (Key.object "ann" "work" "other.ics") with_none.rows ≡ (
        if key_eq (object_key work "met.ics") (Key.object "ann" "work" "other.ics")
        then none
        else lookup (Key.object "ann" "work" "other.ics") with_met.rows))
object-remove_object_example =
    object-remove_object work "met.ics" none "bob" 7 with_met "ann" "work" "other.ics" bob_removes

shared-CtagBounded : CtagBounded shared.rows 7
unfolding lookup key_eq
shared-CtagBounded = record { counted = set_to refl; bound = λ owner id c h. ground arith }

with_met-CtagBounded : CtagBounded with_met.rows 8
unfolding lookup key_eq
with_met-CtagBounded = record { counted = set_to refl; bound = λ owner id c h. ground arith }

put_object-Bumps_example : Bumps shared.rows work 7 with_met.rows × CtagBounded with_met.rows 8
put_object-Bumps_example =
    put_object-Bumps work "met.ics" "u1" "first" none "bob" 5 shared 7 shared-CtagBounded
      (omega arith) bob_puts

abbrev after_delete : Db
after_delete = (delete_collection work 9 with_met).1

ann_deletes : delete_collection work 9 with_met ≡ (ok (tt, "ann" ∷ "bob" ∷ []), after_delete)
unfolding delete_collection delete_in clear_collection delete_keys leave_dropped publish change each
    scan scan_rows decode_all shares_of objects_of uids_of update get find get_raw opened lookup
    key_eq on_keys remove delete
ann_deletes = refl

-- The ctag's counter is all that is left.
all_gone : after_delete.rows ≡ (Key.ctag, number 8) ∷ []
unfolding delete_collection delete_in clear_collection delete_keys leave_dropped publish change each
    scan scan_rows decode_all shares_of objects_of uids_of update get find get_raw opened lookup
    key_eq on_keys remove delete
all_gone = refl

lookup-delete_collection_example : lookup (Key.object "ann" "work" "met.ics") after_delete.rows ≡ (
    if is_deleted work (Key.object "ann" "work" "met.ics")
    then none
    else lookup (Key.object "ann" "work" "met.ics") with_met.rows)
lookup-delete_collection_example =
    lookup-delete_collection work 9 with_met (Key.object "ann" "work" "met.ics") refl ann_deletes
