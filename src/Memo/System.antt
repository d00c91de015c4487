-- ===== src/Memo/System.antt =====
-- Callers of one memo at the same time: every step is what runs under a lock.
use alborz.Prelude.{
  ℕ, ◌+◌, ◌<◌, String, Bool, true, false, List, [], ◌∷◌, ◌++◌, Option, none, some, Result, ◌≡◌,
  ◌==◌, if◌then◌else◌,
}
use alborz.Memo.{
  Memo, Pass, served, direct, waits, loads, get_pass, warm, get_done, background_done, forget,
  update, retry, stale, new, entry, put,
}

-- A load that runs: the entry it is for, and the version it began from.
pub record Load : Type 0 where
  pub address : ℕ
  pub version : ℕ
  pub behind : Bool

-- The memo, and the loads that were begun and have not ended.
pub record System {ℓ} (T : Type ℓ) : Type ℓ where
  pub memo : Memo T
  pub running : List Load

-- How many loads run for an entry.
abbrev pub running_at : ℕ → List Load → ℕ
running_at a [] = 0
running_at a (l ∷ ls) = (if l.address == a then 1 else 0) + running_at a ls

abbrev pub begun : ℕ → Option ℕ → List Load → List Load
begun a none ls = ls
begun a (some version) ls = record { address = a; version = version; behind = true } ∷ ls

module _ {ℓ} {T : Type ℓ} where
  abbrev pub passed : ℕ → Pass T → List Load → List Load
  passed a (served val started) ls = begun a started ls
  passed a (loads version) ls = record { address = a; version = version; behind = false } ∷ ls
  passed a direct ls = ls
  passed a waits ls = ls

  abbrev pub ended : Load → Result (Unit {0}) T → ℕ → Memo T → Memo T
  ended l r now m =
      if l.behind
      then background_done l.address l.version r now m
      else (get_done l.address l.version r now m).1

  module _ (zero : T) where
    -- One step of one caller. A caller that waited passes again at the entry that it has.
    pub data Step (s : System T) : System T → Type ℓ where
      finds : (user : String) → Step s (record s { memo = (entry zero user s.memo).1 })
      gets :
          (a now : ℕ)
          → a < s.memo.next
          → Step s (record {
            memo = (get_pass a now s.memo).1;
            running = passed a (get_pass a now s.memo).0 s.running;
          })
      warms :
          (a now : ℕ)
          → a < s.memo.next
          → Step s (record {
            memo = (warm a now s.memo).1;
            running = begun a (warm a now s.memo).0.1 s.running;
          })
      ends :
          (before after : List Load) (l : Load) (r : Result (Unit {0}) T) (now : ℕ)
          → s.running ≡ before ++ l ∷ after
          → Step s (record { memo = ended l r now s.memo; running = before ++ after })
      puts :
          (user : String) (val : T) (now : ℕ)
          → Step s (record s { memo = put zero user val now s.memo })
      updates : (user : String) (f : T → T) → Step s (record s { memo = update user f s.memo })
      forgets : (user : String) → Step s (record s { memo = forget user s.memo })
      retries : (user : String) (now : ℕ) → Step s (record s { memo = retry user now s.memo })
      stales : (user : String) (now : ℕ) → Step s (record s { memo = stale user now s.memo })

    abbrev pub init : ℕ → Bool → System T
    init ttl background = record { memo = new zero ttl background; running = [] }

    pub data Reach (ttl : ℕ) (background : Bool) : System T → Type ℓ where
      fresh : Reach ttl background (init ttl background)
      later : {s s' : System T} → Reach ttl background s → Step s s' → Reach ttl background s'
