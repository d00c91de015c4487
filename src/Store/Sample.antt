-- ===== src/Store/Sample.antt =====
-- A small data file: a calendar of ann's, shared to bob to write in. Every value in it opens.
use alborz.Prelude.{ℕ, String, true, false, [], ◌∷◌, none, ok, ◌≡◌}
use alborz.Store.Types.{Ref, calendar, Collection, Object, Share}
use alborz.Store.Keys.{Key}
use alborz.Store.Stored.{Stored, plain, number}
use alborz.Store.Env.{Env}
use alborz.Store.Tx.{Db}

-- Names and bytes stand for their own hashes, and every value opens.
instance abbrev pub open_file : Env
open_file = record {
  Held = Unit {0};
  lower = λ s. s;
  name_of = λ s. s;
  etag_of = λ s. s;
  ring_name = λ s. s;
  ring_on = λ h s. false;
  opens = λ h k. none;
  seals = λ h k. none;
  encrypt = λ s n h. ok h;
  public_wrap = λ s b h. ok h;
  wrap_to = λ s n h. ok h;
  unwrap_from = λ s n h. ok h;
  drop_key = λ s h. ok h;
  afresh = λ h. h;
}

abbrev pub names_differ : (a b : String) → open_file.name_of a ≡ open_file.name_of b → a ≡ b
names_differ a b e = e

abbrev pub work : Ref
work = record { owner = "ann"; id = "work" }

abbrev pub work_calendar : Collection
work_calendar = record {
  id = "work";
  owner = "ann";
  kind = calendar;
  components = [];
  name = "Work";
  color = "";
  description = "";
  ctag = 7;
  public = "";
  timezone = "";
  dead = [];
  feed = none;
}

abbrev pub to_bob : Share
to_bob = record {
  owner = "ann";
  collection = "work";
  to = "bob";
  write = true;
  expires = 100;
  accepted = true;
  created = 1;
  declined = false;
  left = false;
  answered = 2;
}

abbrev pub invitation : Share
invitation = record to_bob { accepted = false }

abbrev pub shared : Db
shared = record {
  rows =
      (Key.collection "ann" "work", Stored.collection work_calendar)
      ∷ (Key.share "ann" "work" "bob", Stored.share to_bob)
      ∷ (Key.ctag, number 7)
      ∷ [];
  held = tt;
}

abbrev pub own_only : Db
own_only = record {
  rows = (Key.collection "ann" "work", Stored.collection work_calendar) ∷ (Key.ctag, number 7) ∷ [];
  held = tt;
}

abbrev pub met : Object
met = record {
  name = "met.ics";
  uid = "u1";
  bytes = "first";
  etag = "first";
  modified = 5;
  creator = "bob";
  created = 5;
  editor = "bob";
}

abbrev pub moved : Object
moved = record met { bytes = "second"; etag = "second"; modified = 6; editor = "ann" }

abbrev pub with_ctag : ℕ → Collection
with_ctag n = record work_calendar { ctag = n }

-- The data file after bob's write, after ann's, and after the removal.
abbrev pub with_met : Db
with_met = record {
  rows =
      (Key.collection "ann" "work", Stored.collection (with_ctag 8))
      ∷ (Key.share "ann" "work" "bob", Stored.share to_bob)
      ∷ (Key.ctag, number 8)
      ∷ (Key.uid "ann" "work" "u1", plain "met.ics")
      ∷ (Key.object "ann" "work" "met.ics", Stored.object met)
      ∷ [];
  held = tt;
}

abbrev pub with_moved : Db
with_moved = record {
  rows =
      (Key.collection "ann" "work", Stored.collection (with_ctag 9))
      ∷ (Key.share "ann" "work" "bob", Stored.share to_bob)
      ∷ (Key.ctag, number 9)
      ∷ (Key.uid "ann" "work" "u1", plain "met.ics")
      ∷ (Key.object "ann" "work" "met.ics", Stored.object moved)
      ∷ [];
  held = tt;
}

abbrev pub with_none : Db
with_none = record {
  rows =
      (Key.collection "ann" "work", Stored.collection (with_ctag 9))
      ∷ (Key.share "ann" "work" "bob", Stored.share to_bob)
      ∷ (Key.ctag, number 9)
      ∷ [];
  held = tt;
}
