-- ===== src/Store/Shares/Run.antt =====
-- What the writes to shares do to the records, step by step.
use alborz.Prelude.{
  ℕ, String, Bool, true, List, none, some, ok, ◌≡◌, inl, inr, sym, ap, ◌∙◌, arith, Result-cases,
}
use alborz.Store.Types.{Ref, Share, ref_of_share}
use alborz.Store.Keys.{Key}
use alborz.Store.Stored.{Stored, share_codec, ref_codec}
use alborz.Store.Rows.{lookup, insert, remove}
use alborz.Store.Env.{Env}
use alborz.Store.Tx.{Tx, M, get, get_raw, put, delete, on_keys, each}
use alborz.Store.Tx.Laws.{get-ok, put-ok, get_raw-ok, on_keys-ok, each-ok}
use alborz.Store.Names.{collection_key, share_key, received_key, shares_of, scope_of}
use alborz.Store.Collections.{change}
use alborz.Store.Shares.{answered, must_hold, put_share_in, answer_in, remove_share_in}

module _ ⦃env : Env⦄ where
  -- A write that tells the watchers: the write itself ran on the records as they were.
  pub change-ok :
      {A : Type 0} (ref : Ref) (m : M A) (t : Tx) {a : A} {seen : List String} {u : Tx}
      → change ref m t ≡ ok ((a, seen), u)
      → m t ≡ ok (a, u)
  unfolding change
  change-ok ref m t {a} {seen} {u} h = elim (Result-cases (each {T = Share} (shares_of ref) t)) [
    | inl (e, p) ↦ absurd (ground (arith, p))
    | inr ((before, v), p) ↦
        let s1 : v ≡ t = each-ok (shares_of ref) t p in
        elim (Result-cases (m t)) [
          | inl (e, q) ↦ absurd (ground (arith, p, q, s1))
          | inr ((b, x), q) ↦ elim (Result-cases (each {T = Share} (shares_of ref) x)) [
            | inl (e, r) ↦ absurd (ground (arith, p, q, r, s1))
            | inr ((later, y), r) ↦
                let s2 : y ≡ x = each-ok (shares_of ref) x r in
                let same : (b ≡ a) × (x ≡ u) = ground (arith, p, q, r, s1, s2) in
                q ∙ ap (λ z. ok (z, x)) same.0 ∙ ap (λ z. ok (a, z)) same.1
          ]
        ]
  ]

  must_hold-ok :
      (k : Key) (t : Tx) {u : Tx}
      → t.writing ≡ true
      → must_hold k t ≡ ok (tt, u)
      → (u ≡ t) × (v : Stored) × (lookup k t.rows ≡ some v)
  unfolding must_hold
  must_hold-ok k t w h = elim (Result-cases (get_raw k t)) [
    | inl (e, p) ↦ absurd (ground (arith, p))
    | inr ((none, x), p) ↦ absurd (ground (arith, p))
    | inr ((some v, x), p) ↦
        let (same, read) = get_raw-ok k t p in
        let e : x ≡ _ = ground (arith, p) in (sym e ∙ same, v, sym (read w))
  ]

  -- `Answer` replaces the share by the answered one.
  pub record Answers (t : Tx) (ref : Ref) (to : String) (accepts : Bool) (now : ℕ) (u : Tx)
      : Type 0 where
    pub share : Share
    pub held : lookup (share_key ref to) t.rows ≡ some (Stored.share share)
    pub after :
        u.rows ≡ insert (share_key ref to) (Stored.share (answered share accepts now)) t.rows

  pub answer_in-Answers :
      (ref : Ref) (to : String) (accepts : Bool) (now : ℕ) (t : Tx) {u : Tx}
      → answer_in ref to accepts now t ≡ ok (tt, u)
      → Answers t ref to accepts now u
  unfolding answer_in
  answer_in-Answers ref to accepts now t {u} h =
      elim (Result-cases (get {T = Share} (share_key ref to) t)) [
        | inl (e, p) ↦ absurd (ground (arith, p))
        | inr ((sh, x), p) ↦
            let (same, held) = get-ok (share_key ref to) t p in
            let q : put (share_key ref to) (answered sh accepts now) t ≡ ok (tt, u) =
              ground (arith, p, same) in
            record {
              share = sh;
              held = held;
              after = ap (λ z. z.rows) (put-ok (share_key ref to) (answered sh accepts now) t q);
            }
      ]

  -- `PutShare` writes the share and the receiver's note of it.
  pub record Gives (t : Tx) (sh : Share) (u : Tx) : Type 0 where
    pub collection : Stored
    pub held : lookup (collection_key (ref_of_share sh)) t.rows ≡ some collection
    pub after :
        u.rows
        ≡ insert
            (received_key sh.to (ref_of_share sh))
            (Stored.ref (ref_of_share sh))
            (insert (share_key (ref_of_share sh) sh.to) (Stored.share sh) t.rows)

  pub put_share_in-Gives :
      (sh : Share) (t : Tx) {u : Tx}
      → t.writing ≡ true
      → put_share_in sh t ≡ ok (tt, u)
      → Gives t sh u
  unfolding put_share_in
  put_share_in-Gives sh t {u} w h =
      let at = share_key (ref_of_share sh) sh.to in
      let wrap = env.wrap_to (scope_of (ref_of_share sh)) (env.ring_name sh.to) in
      elim (Result-cases (must_hold (collection_key (ref_of_share sh)) t)) [
        | inl (e, p) ↦ absurd (ground (arith, p))
        | inr ((_, v), p) ↦
            let (s1, there, held) = must_hold-ok (collection_key (ref_of_share sh)) t w p in
            elim (Result-cases (put at sh t)) [
              | inl (e, q) ↦ absurd (ground (arith, p, q, s1))
              | inr ((_, x), q) ↦ elim (Result-cases (on_keys wrap x)) [
                | inl (e, r) ↦ absurd (ground (arith, p, q, r, s1))
                | inr ((_, y), r) ↦
                    let s : put (received_key sh.to (ref_of_share sh)) (ref_of_share sh) y
                        ≡ ok (tt, u) =
                      ground (arith, p, q, r, s1) in
                    let rows : y.rows ≡ insert at (Stored.share sh) t.rows =
                      (on_keys-ok wrap x r).0 ∙ ap (λ z. z.rows) (put-ok at sh t q) in
                    record {
                      collection = there;
                      held = held;
                      after =
                          ap (λ z. z.rows)
                            (put-ok (received_key sh.to (ref_of_share sh)) (ref_of_share sh) y s)
                          ∙ ap
                              (insert (received_key sh.to (ref_of_share sh))
                                (Stored.ref (ref_of_share sh)))
                              rows;
                    }
              ]
            ]
      ]

  -- `RemoveShare` takes both away.
  pub record Takes (t : Tx) (ref : Ref) (to : String) (u : Tx) : Type 0 where
    pub after : u.rows ≡ remove (share_key ref to) (remove (received_key to ref) t.rows)

  pub remove_share_in-Takes :
      (ref : Ref) (to : String) (t : Tx) {u : Tx}
      → t.writing ≡ true
      → remove_share_in ref to t ≡ ok (tt, u)
      → Takes t ref to u
  unfolding remove_share_in delete
  remove_share_in-Takes ref to t {u} w h =
      let unwrap = env.unwrap_from (scope_of ref) (env.ring_name to) in
      let gone : Tx = record t { rows = remove (received_key to ref) t.rows } in
      elim (Result-cases (must_hold (share_key ref to) t)) [
        | inl (e, p) ↦ absurd (ground (arith, p))
        | inr ((_, v), p) ↦
            let (s1, there, held) = must_hold-ok (share_key ref to) t w p in
            elim (Result-cases (on_keys unwrap gone)) [
              | inl (e, q) ↦ absurd (ground (arith, p, q, s1))
              | inr ((_, x), q) ↦
                  let rows : u.rows ≡ remove (share_key ref to) x.rows = ground (arith, p, q, s1) in
                  record {
                    after = rows ∙ ap (remove (share_key ref to)) (on_keys-ok unwrap gone q).0;
                  }
            ]
      ]
