-- ===== src/Store/Shares/Grants.antt =====
-- What a share lets its receiver do, and when that ends.
use alborz.Prelude.{
  ℕ, String, Bool, true, false, List, none, some, ok, ◌≡◌, refl, inl, inr, sym, ap, ◌∙◌, arith,
  Bool-cases,
}
use alborz.Store.Types.{Ref, Collection, Share, Access, own, ref_of_share}
use alborz.Store.Keys.{key_eq_iff}
use alborz.Store.Stored.{Stored}
use alborz.Store.Rows.{lookup, remove, lookup-insert, lookup-remove}
use alborz.Store.Env.{Env}
use alborz.Store.Tx.{Tx, Db, begin}
use alborz.Store.Tx.Laws.{view-ok, update-run}
use alborz.Store.Names.{share_key, received_key}
use alborz.Store.Access.{allowed, may}
use alborz.Store.Access.Sound.{Permits, allowed-Permits}
use alborz.Store.Collections.{change}
use alborz.Store.Shares.{
  answered, addressed, put_share, put_share_in, answer, answer_in, remove_share, remove_share_in,
}
use alborz.Store.Shares.Run.{
  change-ok, Answers, answer_in-Answers, Gives, put_share_in-Gives, remove_share_in-Takes,
}

module _ ⦃env : Env⦄ where
  -- Access is granted only by the records: to the collection's owner everything, to anyone else
  -- what the share says that stands for them, was accepted and has not run out.
  pub may-Permits :
      (ref : Ref) (account : String) (now : ℕ) (db : Db) {c : Collection} {a : Access}
      → may ref account now db ≡ ok (c, a)
      → Permits db.rows ref account now c a
  unfolding may
  may-Permits ref account now db h =
      let (u, ran) = view-ok (allowed ref account now) db h in
      (allowed-Permits ref account now (begin false db) ran).1

  -- Where no accepted share stands, only the owner gets in.
  only_owner :
      (ref : Ref) (account : String) (now : ℕ) (db : Db) {c : Collection} {a : Access}
      → ((sh : Share)
          → lookup (share_key ref account) db.rows ≡ some (Stored.share sh)
          → sh.accepted ≡ false)
      → may ref account now db ≡ ok (c, a)
      → (c.owner ≡ account) × (a ≡ own)
  only_owner ref account now db no_share h = elim (may-Permits ref account now db h).by_right [
    | inl mine ↦ mine
    | inr (other, (s, e)) ↦ absurd (true_false (sym s.is_live.accepted ∙ no_share s.share s.stored))
  ]
    where
      true_false : true ≡ false → ⊥
      true_false e = cc

  pub answer-Answers :
      (ref : Ref) (to : String) (accepts : Bool) (now : ℕ) (db : Db) {seen : List String} {db' : Db}
      → answer ref to accepts now db ≡ (ok (tt, seen), db')
      → (u : Tx) × Answers (begin true db) ref to accepts now u × (db'.rows ≡ u.rows)
  unfolding answer
  answer-Answers ref to accepts now db h =
      let run = update-run (change ref (answer_in ref to accepts now)) db h in
      (
        run.after,
        answer_in-Answers ref to accepts now (begin true db)
            (change-ok ref (answer_in ref to accepts now) (begin true db) run.ran),
        run.rows_kept,
      )

  remove_share-Takes :
      (ref : Ref) (to : String) (db : Db) {seen : List String} {db' : Db}
      → remove_share ref to db ≡ (ok (tt, seen), db')
      → db'.rows ≡ remove (share_key ref to) (remove (received_key to ref) db.rows)
  unfolding remove_share
  remove_share-Takes ref to db h =
      let run = update-run (change ref (remove_share_in ref to)) db h in
      run.rows_kept
      ∙ (remove_share_in-Takes ref to (begin true db) refl
          (change-ok ref (remove_share_in ref to) (begin true db) run.ran)).after

  pub put_share-Gives :
      (sh : Share) (db : Db) {seen : List String} {db' : Db}
      → put_share sh db ≡ (ok (tt, seen), db')
      → (u : Tx) × Gives (begin true db) (addressed sh) u × (db'.rows ≡ u.rows)
  unfolding put_share
  put_share-Gives sh db h =
      let m = put_share_in (addressed sh) in
      let run = update-run (change (ref_of_share sh) m) db h in
      (
        run.after,
        put_share_in-Gives (addressed sh) (begin true db) refl
            (change-ok (ref_of_share sh) m (begin true db) run.ran),
        run.rows_kept,
      )

  answered_no : (sh : Share) (now : ℕ) → (answered sh false now).accepted ≡ false
  unfolding answered
  answered_no sh now = elim (Bool-cases sh.accepted) [
    | inl was ↦ ground (arith, was)
    | inr was ↦ ground (arith, was)
  ]

  -- Declining or leaving ends access: after a successful `Answer` of no, the account is let in at
  -- no time, unless it is the collection's owner.
  pub may-answer_no :
      (ref : Ref) (to : String) (now later : ℕ) (db : Db) {seen : List String} {c : Collection}
      {a : Access} {db' : Db}
      → answer ref to false now db ≡ (ok (tt, seen), db')
      → may ref to later db' ≡ ok (c, a)
      → (c.owner ≡ to) × (a ≡ own)
  may-answer_no ref to now later db h =
      let (u, s, kept) = answer-Answers ref to false now db h in
      only_owner ref to later _ λ sh there.
        let e : some (Stored.share (answered s.share false now)) ≡ some (Stored.share sh) =
          sym (
            ap (lookup (share_key ref to)) (kept ∙ s.after)
            ∙ lookup-insert (share_key ref to) (share_key ref to)
                (Stored.share (answered s.share false now)) db.rows
            ∙ rw ((key_eq_iff (share_key ref to) (share_key ref to)).1 refl) refl)
          ∙ there in
        let same : answered s.share false now ≡ sh = cc e in
        ap (λ x. x.accepted) (sym same) ∙ answered_no s.share now

  -- Taking a share away ends access: after a successful `RemoveShare`, the account is let in at no
  -- time, unless it is the collection's owner.
  pub may-remove_share :
      (ref : Ref) (to : String) (later : ℕ) (db : Db) {seen : List String} {c : Collection}
      {a : Access} {db' : Db}
      → remove_share ref to db ≡ (ok (tt, seen), db')
      → may ref to later db' ≡ ok (c, a)
      → (c.owner ≡ to) × (a ≡ own)
  may-remove_share ref to later db h = only_owner ref to later _ λ sh there. absurd (
      some_none (
        sym there
        ∙ ap (lookup (share_key ref to)) (remove_share-Takes ref to db h)
        ∙ lookup-remove (share_key ref to) (share_key ref to) (remove (received_key to ref) db.rows)
        ∙ rw ((key_eq_iff (share_key ref to) (share_key ref to)).1 refl) refl))
    where
      some_none : {x : Stored} → some x ≡ none → ⊥
      some_none e = cc
