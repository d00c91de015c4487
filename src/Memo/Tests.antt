-- ===== src/Memo/Tests.antt =====
-- A memo of numbers that two users meet.
use alborz.Prelude.{
  ℕ, ◌+◌, ◌≤◌, ◌<◌, ◌^◌, false, List, [], ◌∷◌, none, some, ok, ◌≡◌, ◌≢◌, refl, arith, ◌==◌,
  if◌then◌else◌,
}
use alborz.Memo.{
  Memo, MemoEntry, served, waits, new, new_entry, entry, put, get, get_pass, stale, forget, settle,
}
use alborz.Memo.System.{System, running_at, Reach, fresh, later, finds, gets}
use alborz.Memo.Flight.{one_if, single_flight, entry-forget}
use alborz.Memo.Fresh.{get_pass-stale, get-put}
use alborz.Memo.Overtaken.{Change, by_put, by_stale, changed, moves, settle-changed}

abbrev empty_memo : Memo ℕ
empty_memo = new 0 10 false

abbrev found : System ℕ
found = record { memo = (entry 0 "ann" empty_memo).1; running = [] }

abbrev loading : System ℕ
loading = record {
  memo = (get_pass 0 100 found.memo).1;
  running = record { address = 0; version = 0; behind = false } ∷ [];
}

loading-Reach : Reach 0 10 false loading
unfolding entry get_pass
loading-Reach = later (later fresh (finds "ann")) (gets 0 100 (omega arith))

-- A second caller waits for the first one's load.
second_waits : (get_pass 0 101 loading.memo).0 ≡ waits
unfolding get_pass entry
second_waits = refl

single_flight_example : running_at 0 loading.running ≡ one_if (loading.memo.heap 0).loading
single_flight_example = single_flight 0 0 loading-Reach

entry-forget_example :
    (((entry 0 "ann" (forget "ann" loading.memo)).1.heap
        (entry 0 "ann" (forget "ann" loading.memo)).0)
      ≡ new_entry 0)
    × (running_at (entry 0 "ann" (forget "ann" loading.memo)).0 loading.running ≡ 0)
entry-forget_example = entry-forget 0 "ann" loading-Reach

abbrev with_seven : Memo ℕ
with_seven = put 0 "ann" 7 100 empty_memo

ann_has_entry : with_seven.entries "ann" ≡ some 0
unfolding put entry
ann_has_entry = refl

foreground : with_seven.background ≡ false
unfolding put entry
foreground = refl

short_lived : with_seven.ttl + 1 < 200
unfolding put entry
short_lived = omega arith

get_pass-stale_example : (get_pass 0 200 (stale "ann" 200 with_seven)).0 ≢ served 7 none
get_pass-stale_example =
    get_pass-stale "ann" 0 200 200 with_seven 7 none ann_has_entry foreground short_lived
      (omega arith)

long_ago : with_seven.ttl ≤ 200
unfolding put entry
long_ago = omega arith

keeps_values : empty_memo.ttl ≢ 0
keeps_values e = absurd (omega (arith, e))

get-put_example : (get 0 "ann" 105 with_seven).0 ≡ served 7 none
get-put_example = get-put 0 "ann" 7 100 105 empty_memo keeps_values (omega arith) (omega arith)

abbrev unheld : MemoEntry ℕ
unheld = new_entry 0

abbrev put_meanwhile : List (Change ℕ)
put_meanwhile = by_put 8 120 ∷ by_stale 10 130 ∷ []

few_moves : moves 0 put_meanwhile unheld < 2 ^ 64
unfolding moves
few_moves = omega arith

settle-changed_example : settle unheld.version (ok 5) 140 (changed 0 put_meanwhile unheld) ≡ (
    if moves 0 put_meanwhile unheld == 0
    then record (changed 0 put_meanwhile unheld) { val = 5; fetched = 140; loading = false }
    else record (changed 0 put_meanwhile unheld) { loading = false })
settle-changed_example = settle-changed 0 put_meanwhile unheld 5 140 (omega arith) few_moves
