-- ===== src/Store/Objects/Held.antt =====
-- What stands under a name and under a UID, and what indexing a UID writes.
use text.Mathlib.Text.{◌==◌}
use alborz.Prelude.{
  String, true, false, Option, none, some, ok, ◌≡◌, refl, inl, inr, sym, ap, ◌∙◌, arith, eq_iff,
  Bool-cases, Result-cases, subst,
}
use alborz.Store.Types.{Ref, Object}
use alborz.Store.Stored.{Stored, plain, collection_codec, object_codec}
use alborz.Store.Rows.{Rows, lookup, insert}
use alborz.Store.Env.{Env}
use alborz.Store.Tx.{Tx, get_raw, find, put_raw}
use alborz.Store.Tx.Laws.{get_raw-ok, find-ok, find-some, find-none, put_raw-ok}
use alborz.Store.Names.{object_key, uid_key}
use alborz.Store.Objects.{has_uid, other_holder, check_holder, index_uid}

module _ ⦃env : Env⦄ where
  -- The object that stands under a name, if any.
  pub data Held (rows : Rows) (ref : Ref) (name : String) : Option Object → Type 0 where
    absent :
        {o : Option Object}
        → lookup (object_key ref name) rows ≡ none
        → o ≡ none
        → Held rows ref name o
    present :
        {o : Option Object} (old : Object)
        → lookup (object_key ref name) rows ≡ some (Stored.object old)
        → o ≡ some old
        → Held rows ref name o

  pub find-Held :
      (ref : Ref) (name : String) (t : Tx) (o : Option Object) {u : Tx}
      → t.writing ≡ true
      → find (object_key ref name) t ≡ ok (o, u)
      → Held t.rows ref name o
  find-Held ref name t none w h = absent (find-none {T = Object} (object_key ref name) t w h) refl
  find-Held ref name t (some old) w h = present old (find-some (object_key ref name) t h) refl

  -- No other name holds the UID: whatever the index names has another, or is not there.
  pub record IsFree (rows : Rows) (ref : Ref) (name uid : String) : Type 0 where
    pub holder_agrees :
        (holder : String) (x : Object)
        → lookup (uid_key ref uid) rows ≡ some (plain holder)
        → lookup (object_key ref holder) rows ≡ some (Stored.object x)
        → x.uid ≡ uid
        → holder ≡ name

  -- Indexing a UID writes its entry; an empty one is not indexed.
  pub data Indexes (t : Tx) (ref : Ref) (name uid : String) (u : Tx) : Type 0 where
    no_uid : uid ≡ "" → u ≡ t → Indexes t ref name uid u
    indexed :
        (uid == "") ≡ false
        → IsFree t.rows ref name uid
        → u ≡ record t { rows = insert (uid_key ref uid) (plain name) t.rows }
        → Indexes t ref name uid u

  check_holder-ok :
      (ref : Ref) (uid holder : String) (t : Tx) {u : Tx}
      → check_holder ref uid (some holder) t ≡ ok (tt, u)
      → (u ≡ t)
        × ((x : Object)
            → t.writing ≡ true
            → lookup (object_key ref holder) t.rows ≡ some (Stored.object x)
            → (x.uid == uid) ≡ false)
  unfolding check_holder
  check_holder-ok ref uid holder t {u} h =
      elim (Result-cases (find {T = Object} (object_key ref holder) t)) [
        | inl (e, p) ↦ absurd (ground (arith, p))
        | inr ((o, v), p) ↦
            let r : (v ≡ u) × (has_uid o uid ≡ false) = ground (arith, p) in
            (
              sym r.0 ∙ find-ok (object_key ref holder) t p,
              λ x w e. disagrees o x r.1 (find-Held ref holder t o w p) e,
            )
      ]
    where
      disagrees :
          (o : Option Object) (x : Object)
          → has_uid o uid ≡ false
          → Held t.rows ref holder o
          → lookup (object_key ref holder) t.rows ≡ some (Stored.object x)
          → (x.uid == uid) ≡ false
      disagrees o x f (absent l e) k = cc
      disagrees o x f (present old l e) k =
          let same : old ≡ x = ground arith in
          let f' : (old.uid == uid) ≡ false = ground arith in ap (λ y. y.uid == uid) (sym same) ∙ f'

  check_holder-IsFree :
      (ref : Ref) (name uid : String) (held : Option Stored) (o : Option String) (t : Tx) {u : Tx}
      → t.writing ≡ true
      → held ≡ lookup (uid_key ref uid) t.rows
      → other_holder held name ≡ o
      → check_holder ref uid o t ≡ ok (tt, u)
      → (u ≡ t) × IsFree t.rows ref name uid
  unfolding other_holder
  check_holder-IsFree ref name uid held none t w e f h = (
    unfold check_holder in ground arith,
    record { holder_agrees = λ holder x entry there agrees. ground (arith, eq_iff holder name) },
  )
  check_holder-IsFree ref name uid held (some other) t w e f h =
      let (same, disagrees) = check_holder-ok ref uid other t h in
      (
        same,
        record {
          holder_agrees = λ holder x entry there agrees. elim (Bool-cases (holder == name)) [
            | inl own ↦ (eq_iff holder name).0 own
            | inr not_own ↦
                let it : holder ≡ other = ground arith in
                let there' : lookup (object_key ref other) t.rows ≡ some (Stored.object x) =
                  subst (λ n. lookup (object_key ref n) t.rows ≡ some (Stored.object x)) it there in
                absurd (ground (arith, disagrees x w there', eq_iff x.uid uid))
          ];
        },
      )

  pub index_uid-Indexes :
      (ref : Ref) (name uid : String) (t : Tx) {u : Tx}
      → t.writing ≡ true
      → index_uid ref name uid t ≡ ok (tt, u)
      → Indexes t ref name uid u
  unfolding index_uid
  index_uid-Indexes ref name uid t {u} w h = elim (Bool-cases (uid == "")) [
    | inl empty ↦ no_uid ((eq_iff uid "").0 empty) (ground (arith, empty))
    | inr named ↦ elim (Result-cases (get_raw (uid_key ref uid) t)) [
      | inl (e, p) ↦ absurd (ground (arith, named, p))
      | inr ((held, v), p) ↦
          let (same, read) = get_raw-ok (uid_key ref uid) t p in
          elim (Result-cases (check_holder ref uid (other_holder held name) t)) [
            | inl (e, q) ↦ absurd (ground (arith, named, p, q, same))
            | inr ((tt', x), q) ↦
                let (same', free) =
                  check_holder-IsFree ref name uid held (other_holder held name) t w (read w) refl
                    q in
                let put_last : put_raw (uid_key ref uid) (plain name) x ≡ ok (tt, u) =
                  ground (arith, named, p, q, same) in
                indexed named free (
                  put_raw-ok (uid_key ref uid) (plain name) x put_last
                  ∙ ap (entry_for name uid ref) same')
          ]
    ]
  ]
    where
      entry_for : String → String → Ref → Tx → Tx
      entry_for name uid ref t = record t { rows = insert (uid_key ref uid) (plain name) t.rows }
