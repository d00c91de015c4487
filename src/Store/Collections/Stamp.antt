-- ===== src/Store/Collections/Stamp.antt =====
-- The counter of ctags: what `stamp` and `touch` write.
use alborz.Prelude.{
  ℕ, ◌+◌, true, Option, none, some, ok, ◌≡◌, ◌⊎◌, refl, inl, inr, sym, ap, ◌∙◌, arith, Result-cases,
}
use alborz.Store.Types.{Ref, Collection}
use alborz.Store.Keys.{Key}
use alborz.Store.Stored.{Stored, number, collection_codec}
use alborz.Store.Rows.{Rows, lookup, insert}
use alborz.Store.Env.{Env}
use alborz.Store.Tx.{Tx, get, get_raw, put, put_raw}
use alborz.Store.Tx.Laws.{get_raw-ok, put_raw-ok, put-ok, get-ok}
use alborz.Store.Names.{collection_key}
use alborz.Store.Collections.{u64, last_ctag, stamp, touch}

-- The counter's value, 0 before the first.
pub data Counted (rows : Rows) : ℕ → Type 0 where
  unset : {n : ℕ} → lookup Key.ctag rows ≡ none → n ≡ 0 → Counted rows n
  set_to : {n : ℕ} → lookup Key.ctag rows ≡ some (number n) → Counted rows n

module _ ⦃env : Env⦄ where
  last_ctag-ok :
      (o : Option Stored) (t : Tx) {n : ℕ} {u : Tx}
      → last_ctag o t ≡ ok (n, u)
      → (u ≡ t) × (((o ≡ none) × (n ≡ 0)) ⊎ (o ≡ some (number n)))
  unfolding last_ctag
  last_ctag-ok none t h = (ground arith, inl (refl, ground arith))
  last_ctag-ok (some (number k)) t h = (ground arith, inr (ground arith))
  last_ctag-ok (some s) t h = absurd (ground arith)

  -- `stamp` gives the collection the number after the counter's, and keeps it as the counter.
  pub record Stamps (t : Tx) (c c' : Collection) (u : Tx) : Type 0 where
    pub last : ℕ
    pub counted : Counted t.rows last
    pub stamped : c' ≡ record c { ctag = u64 (last + 1) }
    pub after : u ≡ record t { rows = insert Key.ctag (number (u64 (last + 1))) t.rows }

  abbrev counter_to : ℕ → Tx → Tx
  counter_to n t = record t { rows = insert Key.ctag (number n) t.rows }

  pub stamp-Stamps :
      (c : Collection) (t : Tx) {c' : Collection} {u : Tx}
      → t.writing ≡ true
      → stamp c t ≡ ok (c', u)
      → Stamps t c c' u
  unfolding stamp
  stamp-Stamps c t {c'} {u} w h = elim (Result-cases (get_raw Key.ctag t)) [
    | inl (e, p) ↦ absurd (ground (arith, p))
    | inr ((o, v), p) ↦ elim (Result-cases (last_ctag o v)) [
      | inl (e, q) ↦ absurd (ground (arith, p, q))
      | inr ((n, x), q) ↦ elim (Result-cases (put_raw Key.ctag (number (u64 (n + 1))) x)) [
        | inl (e, r) ↦ absurd (ground (arith, p, q, r))
        | inr ((tt', y), r) ↦
            let (same, read) = get_raw-ok Key.ctag t p in
            let (same', n_is) = last_ctag-ok o v q in
            let e : (record c { ctag = u64 (n + 1) } ≡ c') × (y ≡ u) = ground (arith, p, q, r) in
            record {
              last = n;
              counted = elim n_is [
                | inl (o_none, zero_n) ↦ unset (sym (read w) ∙ o_none) zero_n
                | inr o_some ↦ set_to (sym (read w) ∙ o_some)
              ];
              stamped = sym e.0;
              after =
                  sym e.1
                  ∙ put_raw-ok Key.ctag (number (u64 (n + 1))) x r
                  ∙ ap (counter_to (u64 (n + 1))) (same' ∙ same);
            }
      ]
    ]
  ]

  -- `touch` stamps the collection that stands under the key, and changes nothing else.
  pub record Touches (t : Tx) (ref : Ref) (u : Tx) : Type 0 where
    pub collection : Collection
    pub last : ℕ
    pub stored : lookup (collection_key ref) t.rows ≡ some (Stored.collection collection)
    pub counted : Counted t.rows last
    pub after : u ≡ record t {
      rows =
          insert
            (collection_key ref)
            (Stored.collection (record collection { ctag = u64 (last + 1) }))
            (insert Key.ctag (number (u64 (last + 1))) t.rows);
    }

  pub touch-Touches :
      (ref : Ref) (t : Tx) {u : Tx} → t.writing ≡ true → touch ref t ≡ ok (tt, u) → Touches t ref u
  unfolding touch
  touch-Touches ref t {u} w h = elim (Result-cases (get {T = Collection} (collection_key ref) t)) [
    | inl (e, p) ↦ absurd (ground (arith, p))
    | inr ((c, v), p) ↦
        let (same, stored) = get-ok (collection_key ref) t p in
        elim (Result-cases (stamp c t)) [
          | inl (e, q) ↦ absurd (ground (arith, p, q, same))
          | inr ((c', x), q) ↦
              let s = stamp-Stamps c t w q in
              let put_last : put (collection_key ref) c' x ≡ ok (tt, u) =
                ground (arith, p, q, same) in
              record {
                collection = c;
                last = s.last;
                stored = stored;
                counted = s.counted;
                after = put-ok (collection_key ref) c' x put_last ∙ cc (s.stamped, s.after);
              }
        ]
  ]
