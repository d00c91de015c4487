-- ===== src/Store/Feeds/Tests.antt =====
-- A fetch of a fed calendar that brings what is held.
use alborz.Prelude.{ℕ, true, [], ◌∷◌, some, ok, ◌≡◌, refl}
use alborz.Store.Types.{Collection, Object}
use alborz.Store.Keys.{Key, key_eq}
use alborz.Store.Stored.{Stored}
use alborz.Store.Rows.{lookup, insert}
use alborz.Store.Tx.{
  Db, begin, update, get, find, get_raw, put, put_raw, opened, each, scan, scan_rows, decode_all,
}
use alborz.Store.Names.{collection_key}
use alborz.Store.Names.{objects_of}
use alborz.Store.Sample.{open_file, work, work_calendar, met}
use alborz.Store.Types.{Feed, ref_of_collection}
use alborz.Store.Names.{objects_of}
use alborz.Store.Stored.{object_codec}
use alborz.Store.Feeds.{
  hold, held_from, find_held, any_differs, has_changed, replace, replace_if, fill_in, fill,
}
use alborz.Store.Feeds.Same.{IsDistinct}
use alborz.Store.Feeds.Unchanged.{Fills, fill-Fills}

abbrev feed_of : ℕ → Feed
feed_of fetched = record {
  url = "u";
  etag = "e";
  last_modified = "";
  fetched = fetched;
  every = 60;
  named = 3;
}

abbrev fed_calendar : Collection
fed_calendar = record work_calendar { feed = some (feed_of 10) }

abbrev fed : Db
fed = record {
  rows =
      (Key.collection "ann" "work", Stored.collection fed_calendar)
      ∷ (Key.object "ann" "work" "met.ics", Stored.object met)
      ∷ [];
  held = tt;
}

abbrev fetched_again : Db
fetched_again = record {
  rows =
      (
        Key.collection "ann" "work",
        Stored.collection (record work_calendar { feed = some (feed_of 20) }),
      )
      ∷ (Key.object "ann" "work" "met.ics", Stored.object met)
      ∷ [];
  held = tt;
}

fed_there : lookup (collection_key work) fed.rows ≡ some (Stored.collection fed_calendar)
unfolding lookup key_eq
fed_there = refl

fed_objects :
    each {T = Object} (objects_of (ref_of_collection fed_calendar)) (begin true fed)
    ≡ ok (met ∷ [], begin true fed)
unfolding each scan scan_rows decode_all objects_of opened
fed_objects = refl

met_alone : IsDistinct (met ∷ [])
unfolding IsDistinct
met_alone = (tt, tt)

fed_again : fill work (feed_of 20) (some (met ∷ [])) 30 fed ≡ (ok tt, fetched_again)
unfolding fill fill_in replace_if replace has_changed any_differs held_from hold find_held update
    each scan scan_rows decode_all objects_of get find get_raw opened put put_raw lookup insert
    key_eq
fed_again = refl

fill-Fills_example :
    Fills work (feed_of 20) (met ∷ []) (met ∷ []) fed_calendar fed.rows fetched_again.rows
fill-Fills_example =
    fill-Fills work (feed_of 20) (met ∷ []) (met ∷ []) 30 fed_calendar fed fed_there fed_objects
      met_alone (refl, tt) fed_again
