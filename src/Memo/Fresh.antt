-- ===== src/Memo/Fresh.antt =====
-- How long a value is served.
use alborz.Prelude.{ℕ, ◌+◌, ◌≤◌, ◌<◌, String, false, Option, none, some, ◌≡◌, ◌≢◌, arith, eq_refl}
use alborz.Memo.{Memo, served, start, get_pass, stale, retry, entry, put, get, memo_retry_delay}

module _ {ℓ} {T : Type ℓ} where
  -- `Stale` ends a value: in a memo that reloads while its callers wait, no pass of `Get` at the
  -- user's entry at that time or later serves what is held, where the clock has passed the time to
  -- live.
  pub get_pass-stale :
      (user : String) (a now later : ℕ) (m : Memo T) (val : T) (started : Option ℕ)
      → m.entries user ≡ some a
      → m.background ≡ false
      → m.ttl + 1 < now
      → now ≤ later
      → (get_pass a later (stale user now m)).0 ≢ served val started
  unfolding get_pass stale start
  get_pass-stale user a now later m val started e b lt le h =
      absurd (ground (arith, e, b, lt, le, h))

  -- `Retry` lets a value go stale once the retry delay is over: in a memo that reloads while its
  -- callers wait, no pass of `Get` at the user's entry after the delay serves what is held, where
  -- the clock has passed the time to live.
  pub get_pass-retry :
      (user : String) (a now later : ℕ) (m : Memo T) (val : T) (started : Option ℕ)
      → m.entries user ≡ some a
      → m.background ≡ false
      → m.ttl ≤ now
      → now + memo_retry_delay < later
      → (get_pass a later (retry user now m)).0 ≢ served val started
  unfolding get_pass retry start
  get_pass-retry user a now later m val started e b lt le h =
      absurd (ground (arith, e, b, lt, le, h))

module _ {T : Type 0} (zero : T) where
  -- What was put is served: in a memo that keeps values, `Get` within the time to live after
  -- `Put` returns the value put, and starts no load.
  pub get-put :
      (user : String) (val : T) (now later : ℕ) (m : Memo T)
      → m.ttl ≢ 0
      → 0 < now
      → later ≤ now + m.ttl
      → (get zero user later (put zero user val now m)).0 ≡ served val none
  unfolding get put entry get_pass start
  get-put user val now later m keeps lt le = ground (arith, keeps, lt, le, eq_refl user)
