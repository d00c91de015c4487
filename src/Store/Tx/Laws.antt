-- ===== src/Store/Tx/Laws.antt =====
-- What a successful step of a transaction read, and what it wrote.
use alborz.Prelude.{
  Bool, true, false, List, Option, none, some, Result, ok, err, ◌≡◌, inl, inr, sym, ap, ◌∙◌, arith,
  Option-cases, Result-cases, subst,
}
use alborz.Store.Types.{SealError, StoreError}
use alborz.Store.Keys.{Key}
use alborz.Store.Stored.{Stored, Codec}
use alborz.Store.Rows.{Rows, lookup, insert}
use alborz.Store.Env.{Env}
use alborz.Store.Tx.{
  Tx, M, Db, ◌>>=◌, get_raw, put_raw, find, get, put, on_keys, begin, update, view, scan_rows, scan,
  each,
}

module _ ⦃env : Env⦄ where
  module _ {A B : Type 0} where
    -- The two steps of a successful chain.
    pub bind-ok :
        (m : M A) (f : A → M B) (t : Tx) {b : B} {v : Tx}
        → (m >>= f) t ≡ ok (b, v)
        → (a : A) × (u : Tx) × (m t ≡ ok (a, u)) × (f a u ≡ ok (b, v))
    bind-ok m f t h = elim (Result-cases (m t)) [
      | inl (e, p) ↦ absurd (ground (arith, p))
      | inr ((a, u), p) ↦ (a, u, p, ground (arith, p))
    ]

  pub get_raw-ok :
      (k : Key) (t : Tx) {o : Option Stored} {u : Tx}
      → get_raw k t ≡ ok (o, u)
      → (u ≡ t) × (t.writing ≡ true → o ≡ lookup k t.rows)
  unfolding get_raw
  get_raw-ok k t h = ground arith

  pub get_raw-some :
      (k : Key) (t : Tx) {v : Stored} {u : Tx}
      → get_raw k t ≡ ok (some v, u)
      → lookup k t.rows ≡ some v
  unfolding get_raw
  get_raw-some k t h = ground arith

  pub put_raw-ok :
      (k : Key) (v : Stored) (t : Tx) {u : Tx}
      → put_raw k v t ≡ ok (tt, u)
      → u ≡ record t { rows = insert k v t.rows }
  unfolding put_raw
  put_raw-ok k v t h = ground arith

  -- Only the keys of collections change.
  pub on_keys-ok :
      (change : env.Held → Result SealError env.Held) (t : Tx) {u : Tx}
      → on_keys change t ≡ ok (tt, u)
      → (u.rows ≡ t.rows) × (u.writing ≡ t.writing)
  unfolding on_keys
  on_keys-ok change t h = ground arith

  module _ {T : Type 0} ⦃codec : Codec T⦄ where
    pub find-ok : (k : Key) (t : Tx) {o : Option T} {u : Tx} → find k t ≡ ok (o, u) → u ≡ t
    unfolding find
    find-ok k t h = ground arith

    pub find-some :
        (k : Key) (t : Tx) {x : T} {u : Tx}
        → find k t ≡ ok (some x, u)
        → lookup k t.rows ≡ some (codec.encode x)
    unfolding find
    find-some k t {x} h = elim (Result-cases (get_raw k t)) [
      | inl (e, p) ↦ absurd (ground (arith, p))
      | inr ((none, v), p) ↦ absurd (ground (arith, p))
      | inr ((some s, v), p) ↦ elim (Option-cases (codec.decode s)) [
        | inl d ↦ absurd (ground (arith, p, d))
        | inr (y, d) ↦
            let e : y ≡ x = ground (arith, p, d) in
            get_raw-some k t p ∙ ap some (codec.of_decode s x (d ∙ ap some e))
      ]
    ]

    pub find-none :
        (k : Key) (t : Tx) {u : Tx}
        → t.writing ≡ true
        → find {T = T} k t ≡ ok (none, u)
        → lookup k t.rows ≡ none
    unfolding find
    find-none k t w h = elim (Result-cases (get_raw k t)) [
      | inl (e, p) ↦ absurd (ground (arith, p))
      | inr ((none, v), p) ↦ sym ((get_raw-ok k t p).1 w)
      | inr ((some s, v), p) ↦ absurd (ground (arith, p))
    ]

    -- `get` leaves the transaction as it was, and returns what stands under the key.
    pub get-ok :
        (k : Key) (t : Tx) {x : T} {u : Tx}
        → get k t ≡ ok (x, u)
        → (u ≡ t) × (lookup k t.rows ≡ some (codec.encode x))
    unfolding get
    get-ok k t {x} h = elim (Result-cases (find {T = T} k t)) [
      | inl (e, p) ↦ absurd (ground (arith, p))
      | inr ((none, v), p) ↦ absurd (ground (arith, p))
      | inr ((some y, v), p) ↦
          let e : y ≡ x = ground (arith, p) in
          let same : v ≡ _ = ground (arith, p) in
          (sym same ∙ find-ok k t p, find-some k t p ∙ ap (λ z. some (codec.encode z)) e)
    ]

    -- `each` reads.
    pub each-ok :
        (under : Key → Bool) (t : Tx) {xs : List T} {u : Tx} → each under t ≡ ok (xs, u) → u ≡ t
    unfolding each scan
    each-ok under t h = elim (Result-cases (scan_rows under t t.rows)) [
      | inl (e, p) ↦ absurd (ground (arith, p))
      | inr (found, p) ↦ ground (arith, p)
    ]

    -- `put` writes one row.
    pub put-ok :
        (k : Key) (x : T) (t : Tx) {u : Tx}
        → put k x t ≡ ok (tt, u)
        → u ≡ record t { rows = insert k (codec.encode x) t.rows }
    unfolding put
    put-ok k x t {u} h = elim (Result-cases (get_raw k t)) [
      | inl (e, p) ↦ absurd (ground (arith, p))
      | inr ((o, v), p) ↦
          let same : v ≡ t = (get_raw-ok k t p).0 in
          put_raw-ok k (codec.encode x) t
            (subst (λ w. put_raw k (codec.encode x) w ≡ ok (tt, u)) same (ground (arith, p)))
    ]

  module _ {A : Type 0} where
    -- What an `Update` that returned no error did: its function ran on the records as they were,
    -- and what it left is what is kept.
    pub record Updates (m : M A) (db : Db) (a : A) (db' : Db) : Type 0 where
      pub after : Tx
      pub ran : m (begin true db) ≡ ok (a, after)
      pub rows_kept : db'.rows ≡ after.rows

    pub update-ok :
        (m : M A) (db : Db) {a : A} → (update m db).0 ≡ ok a → Updates m db a (update m db).1
    unfolding update
    update-ok m db {a} h = elim (Result-cases (m (begin true db))) [
      | inl (e, p) ↦ absurd (ground (arith, p))
      | inr ((b, u), p) ↦
          let same : b ≡ a = ground (arith, p) in
          record { after = u; ran = p ∙ ap (λ x. ok (x, u)) same; rows_kept = ground (arith, p) }
    ]

    pub update-run :
        (m : M A) (db : Db) {a : A} {db' : Db} → update m db ≡ (ok a, db') → Updates m db a db'
    update-run m db h =
        let run = update-ok m db (ap (λ x. x.0) h) in
        record {
          after = run.after;
          ran = run.ran;
          rows_kept = ap (λ x. x.1.rows) (sym h) ∙ run.rows_kept;
        }

    -- One that returned an error changed nothing.
    pub update-err :
        (m : M A) (db : Db) {e : StoreError} → (update m db).0 ≡ err e → (update m db).1 ≡ db
    unfolding update
    update-err m db h = elim (Result-cases (m (begin true db))) [
      | inl (e, p) ↦ rw (p, update)
      | inr ((b, u), p) ↦ absurd (ground (arith, p))
    ]

    -- A predicate of the records that every success keeps holds after any outcome.
    pub update-keeps :
        (P : Rows → Type 0) (m : M A) (db : Db)
        → ((a : A) (u : Tx) → m (begin true db) ≡ ok (a, u) → P db.rows → P u.rows)
        → P db.rows
        → P (update m db).1.rows
    update-keeps P m db step h = elim (Result-cases (update m db).0) [
      | inl (e, p) ↦ subst (λ d. P d.rows) (sym (update-err m db p)) h
      | inr (a, p) ↦
          let run = update-ok m db p in subst P (sym run.rows_kept) (step a run.after run.ran h)
    ]

    -- What a `View` that returned no error read.
    pub view-ok :
        (m : M A) (db : Db) {a : A} → view m db ≡ ok a → (u : Tx) × (m (begin false db) ≡ ok (a, u))
    unfolding view
    view-ok m db {a} h = elim (Result-cases (m (begin false db))) [
      | inl (e, p) ↦ absurd (ground (arith, p))
      | inr ((b, u), p) ↦ let same : b ≡ a = ground (arith, p) in (u, p ∙ ap (λ x. ok (x, u)) same)
    ]
