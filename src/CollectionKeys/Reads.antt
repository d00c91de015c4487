-- ===== src/CollectionKeys/Reads.antt =====
-- What a transaction reads and writes through the sealed data file.
use alborz.Prelude.{
  ℕ, String, Bool, true, false, List, [], ◌∷◌, map, if◌then◌else◌, Option, none, some, ◌≡◌, ◌⊎◌,
  inl, inr, refl, ap, ◌∙◌, arith, Result-cases, Option-cases, Bool-cases,
}
use alborz.Seal.{Crypto, Sealed}
use alborz.CollectionKeys.{KeysError, ValueKey, KeysTx, collection, open_value}
use alborz.CollectionKeys.Access.{
  scope_of, passed, find_value, note_failure, looked_at, get, scan, scan_rows, sealer, put, delete,
  Body, finish, get_then, scan_then, put_then, delete_then, run_body, begin, update,
}
use alborz.CollectionKeys.Kept.{
  Keeps, open_value-Keeps, tried-Keeps, looked_at-Keeps, sealer-Keeps, scan_rows-Keeps,
}

module _ ⦃crypto : Crypto⦄ (size : String → ℕ) where
  -- What `get` answers: nothing, what it opened, or nothing with the failure noted.
  data Got (k : ValueKey) (t : KeysTx) : Option String × KeysTx → Type 0 where
    missing : find_value k t.values ≡ none → Got k t (none, t)
    opened : (plain : String) {u : KeysTx} → Keeps size t u → Got k t (some plain, u)
    refused : (e : KeysError) {u : KeysTx} → Keeps size t u → Got k t (none, note_failure e u)

  get-Got : (k : ValueKey) (t : KeysTx) → Got k t (get size k t)
  unfolding get
  get-Got k t = elim (Option-cases (find_value k t.values)) [
    | inl absent ↦ rw (absent, get) (missing absent)
    | inr (s, found) ↦ elim (Result-cases (open_value size (scope_of k) s t)) [
      | inr ((plain, u), f) ↦
          rw (found, f, get) (opened plain (open_value-Keeps size (scope_of k) s t f))
      | inl (e, f) ↦ rw (found, f, get) (refused e (tried-Keeps size (scope_of k) s t))
    ]
  ]

  -- A read finds nothing under the key, or opens what it finds.
  abbrev pub IsRead : ValueKey → KeysTx → Type 0
  IsRead k t = (find_value k t.values ≡ none) ⊎ ((plain : String) × ((get size k t).0 ≡ some plain))

  -- A read in a write's transaction that does not open what it finds is noted, and no note is lost.
  noted :
      (e : KeysError) (u : KeysTx)
      → u.write ≡ true
      → (d : KeysError) × ((note_failure e u).failed ≡ some d)
  noted e u write = elim (Option-cases u.failed) [
    | inl first ↦ (e, ground (arith, write, first))
    | inr (d, earlier) ↦ (d, ground (arith, earlier))
  ]

  got-IsRead :
      (k : ValueKey) (t : KeysTx) {g : Option String × KeysTx}
      → t.write ≡ true
      → Got k t g
      → ((find_value k t.values ≡ none) ⊎ ((plain : String) × (g.0 ≡ some plain)))
        ⊎ ((e : KeysError) × (g.1.failed ≡ some e))
  got-IsRead k t write (missing absent) = inl (inl absent)
  got-IsRead k t write (opened plain keeps) = inl (inr (plain, refl))
  got-IsRead k t write (refused e {u} keeps) =
      inr (noted e u (ap (λ (x : KeysTx). x.write) keeps ∙ write))

  -- What stays as it was once a failure is noted, and of a write's transaction.
  record Stays (t u : KeysTx) : Type 0 where
    pub write : u.write ≡ t.write
    pub failed : (e : KeysError) → t.failed ≡ some e → u.failed ≡ some e

  Keeps-Stays : (t u : KeysTx) → Keeps size t u → Stays t u
  Keeps-Stays t u keeps = record {
    write = ap (λ (x : KeysTx). x.write) keeps;
    failed = λ e h. ap (λ (x : KeysTx). x.failed) keeps ∙ h;
  }

  got-Stays : (k : ValueKey) (t : KeysTx) {g : Option String × KeysTx} → Got k t g → Stays t g.1
  got-Stays k t (missing absent) = record { write = refl; failed = λ e h. h }
  got-Stays k t (opened plain {u} keeps) = Keeps-Stays t u keeps
  got-Stays k t (refused d {u} keeps) =
      let s = Keeps-Stays t u keeps in
      record { write = s.write; failed = λ e h. ground (arith, s.failed e h) }

  -- The keys under the prefix.
  unfoldable pub keys_under : (ValueKey → Bool) → List (ValueKey × Sealed) → List ValueKey
  keys_under under [] = []
  keys_under under ((k, s) ∷ rows) =
      let rest = keys_under under rows in if under k then k ∷ rest else rest

  -- What a scan in a write's transaction answers: an error, or a value for every key under the prefix.
  abbrev IsScanned :
      (ValueKey → Bool)
      → List (ValueKey × Sealed)
      → List (ValueKey × String) × Option KeysError
      → Type 0
  IsScanned under rows answer =
      ((e : KeysError) × (answer.1 ≡ some e))
      ⊎ ((answer.1 ≡ none) × (map (λ row. row.0) answer.0 ≡ keys_under under rows))

  scan_rows-IsScanned :
      (under : ValueKey → Bool) (rows : List (ValueKey × Sealed)) (t : KeysTx)
      → t.write ≡ true
      → IsScanned under rows (scan_rows size under rows t).0
  unfolding scan_rows keys_under
  scan_rows-IsScanned under [] t write = inr (refl, refl)
  scan_rows-IsScanned under ((k, s) ∷ rows) t write = elim (Bool-cases (under k)) [
    | inr out ↦ rw (out, scan_rows, keys_under) (scan_rows-IsScanned under rows t write)
    | inl within ↦ elim (Result-cases (open_value size (scope_of k) s t)) [
      | inl (e, f) ↦
          let ends : passed t e ≡ false = ground (arith, write) in
          rw (within, f, ends, scan_rows) (inl (e, refl))
      | inr ((plain, u), f) ↦
          let writes =
            ap (λ (x : KeysTx). x.write) (open_value-Keeps size (scope_of k) s t f) ∙ write in
          rw (within, f, scan_rows, keys_under)
            (elim (scan_rows-IsScanned under rows u writes) [
              | inl (e, ends) ↦ inl (e, ends)
              | inr (ends, all) ↦ inr (ends, ap (λ x. k ∷ x) all)
            ])
    ]
  ]

  put-Stays : (k : ValueKey) (plain : String) (t : KeysTx) → Stays t (put size k plain t).1
  unfolding put
  put-Stays k plain t = elim (Result-cases (sealer size k t)) [
    | inl (e, f) ↦
        rw (f, put)
          (Keeps-Stays t (looked_at (collection size (scope_of k) t) t)
            (looked_at-Keeps size (scope_of k) t))
    | inr ((key, u), f) ↦
        let s = Keeps-Stays t u (sealer-Keeps size k t f) in
        rw (f, put) (record { write = s.write; failed = s.failed })
  ]

  Stays-trans : {t u v : KeysTx} → Stays t u → Stays u v → Stays t v
  Stays-trans a b = record { write = b.write ∙ a.write; failed = λ e h. b.failed e (a.failed e h) }

  run_body-Stays : (body : Body) (t : KeysTx) → Stays t (run_body size body t).1
  unfolding run_body scan delete
  run_body-Stays (finish e) t = record { write = refl; failed = λ d h. h }
  run_body-Stays (get_then k rest) t =
      Stays-trans (got-Stays k t (get-Got k t))
        (run_body-Stays (rest (get size k t).0) (get size k t).1)
  run_body-Stays (scan_then under rest) t =
      Stays-trans (Keeps-Stays t (scan size under t).1 (scan_rows-Keeps size under t.values t))
        (run_body-Stays (rest (scan size under t).0) (scan size under t).1)
  run_body-Stays (put_then k plain rest) t =
      Stays-trans (put-Stays k plain t)
        (run_body-Stays (rest (put size k plain t).0) (put size k plain t).1)
  run_body-Stays (delete_then k rest) t =
      let after = run_body-Stays rest (delete size k t) in
      record { write = after.write; failed = after.failed }

  -- Every `Get` of the body, where it stands in the run, finds nothing or opens what it finds, and every
  -- `Scan` answers an error, or a value for every key under its prefix.
  unfoldable pub IsAllRead : Body → KeysTx → Type 0
  unfolding get scan put delete keys_under
  IsAllRead (finish e) t = Unit
  IsAllRead (get_then k rest) t = IsRead k t × IsAllRead (rest (get size k t).0) (get size k t).1
  IsAllRead (scan_then under rest) t =
      IsScanned under t.values (scan size under t).0
      × IsAllRead (rest (scan size under t).0) (scan size under t).1
  IsAllRead (put_then k plain rest) t =
      IsAllRead (rest (put size k plain t).0) (put size k plain t).1
  IsAllRead (delete_then k rest) t = IsAllRead rest (delete size k t)

  run_body-IsAllRead :
      (body : Body) (t : KeysTx)
      → t.write ≡ true
      → (run_body size body t).1.failed ≡ none
      → IsAllRead body t
  unfolding run_body IsAllRead scan
  run_body-IsAllRead (finish e) t write clean = tt
  run_body-IsAllRead (get_then k rest) t write clean =
      let (found, u) = get size k t in
      let stays = got-Stays k t (get-Got k t) in
      let after = run_body-Stays (rest found) u in
      elim (got-IsRead k t write (get-Got k t)) [
        | inl read ↦ (read, run_body-IsAllRead (rest found) u (stays.write ∙ write) clean)
        | inr (e, failed) ↦ let kept = after.failed e failed in absurd cc
      ]
  run_body-IsAllRead (scan_then under rest) t write clean =
      let (found, u) = scan size under t in
      (
        scan_rows-IsScanned under t.values t write,
        run_body-IsAllRead (rest found) u
            (ap (λ (x : KeysTx). x.write) (scan_rows-Keeps size under t.values t) ∙ write) clean,
      )
  run_body-IsAllRead (put_then k plain rest) t write clean =
      let (e, u) = put size k plain t in
      run_body-IsAllRead (rest e) u ((put-Stays k plain t).write ∙ write) clean
  run_body-IsAllRead (delete_then k rest) t write clean =
      run_body-IsAllRead rest (delete size k t) write clean

  -- Where a write's transaction succeeds, each `Get` of its body found no value or opened the one that it
  -- found, and each `Scan` gave its caller an error, or a value for every key under its prefix,
  -- whatever the body did with the answers; where it does not succeed, the data file is as it was.
  pub update-IsAllRead :
      (body : Body) (t : KeysTx)
      → ((update size body t).0 ≡ none × IsAllRead body (begin true t))
        ⊎ ((e : KeysError) × ((update size body t).0 ≡ some e) × ((update size body t).1 ≡ t))
  unfolding update
  update-IsAllRead body t =
      let (e, u) = run_body size body (begin true t) in
      elim (Option-cases u.failed) [
        | inr (d, failed) ↦ inr (d, ground (arith, failed), ground (arith, failed))
        | inl clean ↦ elim (Option-cases e) [
          | inr (d, ends) ↦ inr (d, ground (arith, clean, ends), ground (arith, clean, ends))
          | inl ends ↦
              inl (ground (arith, clean, ends), run_body-IsAllRead body (begin true t) refl clean)
        ]
      ]
