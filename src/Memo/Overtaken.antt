-- ===== src/Memo/Overtaken.antt =====
-- A load that a newer value or `Stale` overtook is not kept.
use alborz.Prelude.{
  ℕ, ◌+◌, ◌%◌, ◌^◌, ◌<◌, false, List, [], ◌∷◌, ok, ◌≡◌, inl, inr, Bool-cases, arith, ◌==◌,
  if◌then◌else◌,
}
use alborz.Memo.{MemoEntry, settle, updated, staled, put_at}

-- What may come to an entry while a load for it runs; each is `Put`, `Update` or `Stale` at the entry.
pub data Change (T : Type 0) : Type 0 where
  by_put : (val : T) (now : ℕ) → Change T
  by_update : (f : T → T) → Change T
  by_stale : (ttl now : ℕ) → Change T

module _ {T : Type 0} (zero : T) where
  unfoldable pub changed : List (Change T) → MemoEntry T → MemoEntry T
  changed [] e = e
  changed (by_put val now ∷ cs) e = changed cs (put_at zero val now e)
  changed (by_update f ∷ cs) e = changed cs (updated f e)
  changed (by_stale ttl now ∷ cs) e = changed cs (staled ttl now e)

  -- How many of the changes moved the version; an update of nothing does not.
  unfoldable pub moves : List (Change T) → MemoEntry T → ℕ
  moves [] e = 0
  moves (by_put val now ∷ cs) e = 1 + moves cs (put_at zero val now e)
  moves (by_update f ∷ cs) e = (if e.fetched == 0 then 0 else 1) + moves cs (updated f e)
  moves (by_stale ttl now ∷ cs) e = 1 + moves cs (staled ttl now e)

  changed-version :
      (cs : List (Change T)) (e : MemoEntry T)
      → e.version < 2 ^ 64
      → (changed cs e).version ≡ (e.version + moves cs e) % 2 ^ 64
  unfolding changed moves
  changed-version [] e lt = ground (arith, lt)
  changed-version (by_put val now ∷ cs) e lt =
      ground (arith, changed-version cs (put_at zero val now e) (omega arith))
  changed-version (by_update f ∷ cs) e lt = elim (Bool-cases (e.fetched == 0)) [
    | inl empty ↦ ground (arith, empty, lt, changed-version cs e)
    | inr has ↦ ground (arith, has, lt, changed-version cs (updated f e))
  ]
  changed-version (by_stale ttl now ∷ cs) e lt =
      ground (arith, changed-version cs (staled ttl now e))

  -- A load keeps what it read exactly when nothing moved the version since it began: if something
  -- did, ending the load changes nothing of the value, whatever it read, and if nothing did, the
  -- value is what it read, dated now. Fewer than 2 ^ 64 changes come to an entry while a load runs.
  pub settle-changed :
      (cs : List (Change T)) (e : MemoEntry T) (val : T) (now : ℕ)
      → e.version < 2 ^ 64
      → moves cs e < 2 ^ 64
      → settle e.version (ok val) now (changed cs e) ≡ (
          if moves cs e == 0
          then record (changed cs e) { val = val; fetched = now; loading = false }
          else record (changed cs e) { loading = false })
  unfolding settle
  settle-changed cs e val now lt few = ground (arith, lt, few, changed-version cs e lt)
