-- ===== src/Memo.antt =====
-- internal/memo: one derived value per user, loaded once for concurrent callers.
pub mod System
pub mod Flight
pub mod Fresh
pub mod Overtaken
pub mod Tests
use alborz.Prelude.{
  ℕ, ◌+◌, ◌-◌, ◌%◌, ◌^◌, String, Bool, true, false, not, ◌&&◌, ◌||◌, Option, none, some, Result, ok,
  err, ltb, leb, ◌==◌, if◌then◌else◌,
}
use text.Mathlib.Text.{◌==◌ as text_eq}

-- `memoEntry`. A time is its number of nanoseconds, and 0 is Go's zero time; `loading` is whether
-- the channel is there.
pub record MemoEntry {ℓ} (T : Type ℓ) : Type ℓ where
  pub val : T
  pub fetched : ℕ
  pub loading : Bool
  pub version : ℕ
  pub retry_after : ℕ

-- `Memo`. An entry is reached by its address, since a load keeps its entry after `Forget`; `next` is
-- an address that nothing has.
pub record Memo {ℓ} (T : Type ℓ) : Type ℓ where
  pub ttl : ℕ
  pub background : Bool
  pub entries : String → Option ℕ
  pub heap : ℕ → MemoEntry T
  pub next : ℕ

-- `memoRetryDelay`: five seconds.
abbrev pub memo_retry_delay : ℕ
memo_retry_delay = 5000000000

-- A pass of the loop of `Get`, under the entry's lock.
pub data Pass {ℓ} (T : Type ℓ) : Type ℓ where
  -- The value held, and the version of the load that was started behind it, if one was.
  served : T → Option ℕ → Pass T
  -- Nothing is kept where `ttl` is 0: the caller loads.
  direct : Pass T
  -- Another caller is loading.
  waits : Pass T
  -- The caller loads, from this version.
  loads : ℕ → Pass T

-- `version++` on a uint64.
abbrev pub bumped : ℕ → ℕ
bumped version = (version + 1) % 2 ^ 64

abbrev pub entries_set : String → Option ℕ → (String → Option ℕ) → String → Option ℕ
entries_set user a entries other = if text_eq user other then a else entries other

module _ {ℓ} {T : Type ℓ} where
  abbrev pub heap_set : ℕ → MemoEntry T → (ℕ → MemoEntry T) → ℕ → MemoEntry T
  heap_set a e heap b = if a == b then e else heap b

  abbrev pub write_entry : ℕ → MemoEntry T → Memo T → Memo T
  write_entry a e m = record m { heap = heap_set a e m.heap }

  -- `time.Since(e.fetched) > m.ttl`.
  abbrev pub is_stale : Memo T → MemoEntry T → ℕ → Bool
  is_stale m e now = ltb m.ttl (now - e.fetched)

  -- `settle`; the entry's value stays where the load failed or was overtaken.
  unfoldable pub settle : ℕ → Result (Unit {0}) T → ℕ → MemoEntry T → MemoEntry T
  settle version (ok val) now e =
      if version == e.version
      then record e { val = val; fetched = now; loading = false }
      else record e { loading = false }
  settle version (err f) now e = record e { loading = false }

  -- `start` up to the load.
  unfoldable pub start : ℕ → ℕ → Memo T → Option ℕ × Memo T
  start a now m =
      let e = m.heap a in
      if e.loading || ltb now e.retry_after
      then (none, m)
      else (some e.version, write_entry a (record e { loading = true }) m)

  -- A pass of `Get` at the entry.
  unfoldable pub get_pass : ℕ → ℕ → Memo T → Pass T × Memo T
  unfolding start
  get_pass a now m =
      let e = m.heap a in
      let begun = start a now m in
      if not (e.fetched == 0) && (m.background || not (is_stale m e now))
      then (if m.background && is_stale m e now
          then (served e.val begun.0, begun.1)
          else (served e.val none, m))
      else if e.loading
      then (waits, m)
      else (loads e.version, write_entry a (record e { loading = true }) m)

  -- `Warm` at the entry: the value, and the load that was started.
  unfoldable pub warm : ℕ → ℕ → Memo T → (T × Option ℕ) × Memo T
  unfolding start
  warm a now m =
      let e = m.heap a in
      let begun = start a now m in
      if e.fetched == 0 || is_stale m e now then ((e.val, begun.0), begun.1) else ((e.val, none), m)

  -- What `Get` returns after a load of its own: the value held, which a caller may have put meanwhile.
  abbrev pub returned : Result (Unit {0}) T → MemoEntry T → Result (Unit {0}) T
  returned (err f) e = err f
  returned (ok val) e = ok (if e.fetched == 0 then val else e.val)

  -- The end of a load that `Get` made, with what `Get` returns.
  unfoldable pub get_done : ℕ → ℕ → Result (Unit {0}) T → ℕ → Memo T → Result (Unit {0}) T × Memo T
  unfolding settle
  get_done a version r now m =
      let e = settle version r now (m.heap a) in (returned r e, write_entry a e m)

  abbrev pub backed_off : Result (Unit {0}) T → ℕ → MemoEntry T → MemoEntry T
  backed_off (ok val) now e = e
  backed_off (err f) now e = record e { retry_after = now + memo_retry_delay }

  -- The end of a load behind a value.
  unfoldable pub background_done : ℕ → ℕ → Result (Unit {0}) T → ℕ → Memo T → Memo T
  unfolding settle
  background_done a version r now m =
      write_entry a (settle version r now (backed_off r now (m.heap a))) m

  -- `held`.
  abbrev pub held : String → Memo T → Option ℕ
  held user m = m.entries user

  -- `Forget`.
  unfoldable pub forget : String → Memo T → Memo T
  forget user m = record m { entries = entries_set user none m.entries }

  abbrev pub updated : (T → T) → MemoEntry T → MemoEntry T
  updated f e = if e.fetched == 0 then e else record e { version = bumped e.version; val = f e.val }

  -- `Update`, `Retry` and `Stale`, each at the entry that is held, if any.
  unfoldable pub update : String → (T → T) → Memo T → Memo T
  update user f m = elim (held user m) [
    | none ↦ m
    | some a ↦ write_entry a (updated f (m.heap a)) m
  ]

  abbrev pub retried : ℕ → ℕ → MemoEntry T → MemoEntry T
  retried ttl now e =
      let soon = now + memo_retry_delay - ttl in
      if ltb soon e.fetched then record e { fetched = soon } else e

  unfoldable pub retry : String → ℕ → Memo T → Memo T
  retry user now m = elim (held user m) [
    | none ↦ m
    | some a ↦ write_entry a (retried m.ttl now (m.heap a)) m
  ]

  abbrev pub staled : ℕ → ℕ → MemoEntry T → MemoEntry T
  staled ttl now e =
      if e.fetched == 0
      then record e { version = bumped e.version }
      else record e { version = bumped e.version; fetched = now - ttl - 1 }

  unfoldable pub stale : String → ℕ → Memo T → Memo T
  stale user now m = elim (held user m) [
    | none ↦ m
    | some a ↦ write_entry a (staled m.ttl now (m.heap a)) m
  ]

  -- `zero` is the zero value of the type.
  module _ (zero : T) where
    abbrev pub new_entry : MemoEntry T
    new_entry = record { val = zero; fetched = 0; loading = false; version = 0; retry_after = 0 }

    -- `New` and `NewBackground`.
    abbrev pub new : ℕ → Bool → Memo T
    new ttl background = record {
      ttl = ttl;
      background = background;
      entries = λ user. none;
      heap = λ a. new_entry;
      next = 0;
    }

    -- `entry`.
    unfoldable pub entry : String → Memo T → ℕ × Memo T
    entry user m = elim (m.entries user) [
      | some a ↦ (a, m)
      | none ↦ (
        m.next,
        record m {
          entries = entries_set user (some m.next) m.entries;
          heap = heap_set m.next new_entry m.heap;
          next = m.next + 1;
        },
      )
    ]

    abbrev pub put_at : T → ℕ → MemoEntry T → MemoEntry T
    put_at val now e = record e { version = bumped e.version; val = val; fetched = now }

    -- `Put`.
    unfoldable pub put : String → T → ℕ → Memo T → Memo T
    unfolding entry
    put user val now m =
        let found = entry user m in
        if m.ttl == 0
        then m
        else write_entry found.0 (put_at val now (found.1.heap found.0)) found.1

    -- `Get` up to its first pass, and `Warm`.
    unfoldable pub get : String → ℕ → Memo T → Pass T × Memo T
    unfolding entry get_pass
    get user now m =
        let found = entry user m in if m.ttl == 0 then (direct, m) else get_pass found.0 now found.1

    unfoldable pub warm_user : String → ℕ → Memo T → (T × Option ℕ) × Memo T
    unfolding entry warm
    warm_user user now m =
        let found = entry user m in
        if m.ttl == 0 then ((zero, none), m) else warm found.0 now found.1
