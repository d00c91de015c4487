-- ===== src/Store/Ctags.antt =====
-- Ctags: a write to a collection gives it a number that no collection has had.
use text.Mathlib.Text.{◌==◌}
use alborz.Prelude.{
  ℕ, ◌+◌, ◌<◌, ◌≤◌, ◌^◌, String, true, false, some, ok, ◌≡◌, ◌⊎◌, refl, inl, inr, sym, ap, ◌∙◌,
  arith, if◌then◌else◌, Bool-cases, subst,
}
use alborz.Store.Types.{Ref, Collection, Object}
use alborz.Store.Keys.{Key, key_eq}
use alborz.Store.Stored.{Stored, number}
use alborz.Store.Rows.{Rows, lookup, remove, lookup-insert, lookup-remove}
use alborz.Store.Env.{Env}
use alborz.Store.Tx.{Tx, Db, begin}
use alborz.Store.Tx.Laws.{update-run}
use alborz.Store.Names.{collection_key, uid_key}
use alborz.Store.Collections.{u64}
use alborz.Store.Collections.Stamp.{Counted, unset, set_to, Touches}
use alborz.Store.Objects.{Unless, put_object, put_object_in, remove_object, remove_object_in}
use alborz.Store.Objects.Held.{Indexes, no_uid, indexed}
use alborz.Store.Objects.Run.{Writes, Removes, put_object_in-Puts, remove_object_in-Removes}

u64-small : (n : ℕ) → n < 2 ^ 64 → u64 n ≡ n
u64-small n h = omega (arith, h)

Counted-unique : (rows : Rows) (n m : ℕ) → Counted rows n → Counted rows m → n ≡ m
Counted-unique rows n m (unset l e) (unset k f) = e ∙ sym f
Counted-unique rows n m (unset l e) (set_to k) = absurd cc
Counted-unique rows n m (set_to l) (unset k f) = absurd cc
Counted-unique rows n m (set_to l) (set_to k) = cc

-- The counter stands at `n`, and no collection's ctag is past it.
pub record CtagBounded (rows : Rows) (n : ℕ) : Type 0 where
  pub counted : Counted rows n
  pub bound :
      (owner id : String) (c : Collection)
      → lookup (Key.collection owner id) rows ≡ some (Stored.collection c)
      → c.ctag ≤ n

module _ ⦃env : Env⦄ where
  -- `ref`'s collection got the next number, and every other collection stayed.
  pub record Bumps (before : Rows) (ref : Ref) (n : ℕ) (after : Rows) : Type 0 where
    pub collection : Collection
    pub stored : lookup (collection_key ref) before ≡ some (Stored.collection collection)
    pub bumped :
        (owner id : String)
        → lookup (Key.collection owner id) after ≡ (
            if key_eq (collection_key ref) (Key.collection owner id)
            then some (Stored.collection (record collection { ctag = n + 1 }))
            else lookup (Key.collection owner id) before)
    pub counted : lookup Key.ctag after ≡ some (number (n + 1))

  Bumps-CtagBounded :
      {before after : Rows} {ref : Ref} {n : ℕ}
      → CtagBounded before n
      → Bumps before ref n after
      → CtagBounded after (n + 1)
  Bumps-CtagBounded {before} {after} {ref} {n} b s = record {
    counted = set_to s.counted;
    bound = λ owner id c h.
        elim (Bool-cases (key_eq (collection_key ref) (Key.collection owner id))) [
          | inl here ↦
              let e : some (Stored.collection (record s.collection { ctag = n + 1 }))
                  ≡ some (Stored.collection c) =
                sym (s.bumped owner id ∙ rw here refl) ∙ h in
              let at : n + 1 ≡ c.ctag = cc e in omega (arith, at)
          | inr other ↦
              let le : c.ctag ≤ n =
                b.bound owner id c (sym (s.bumped owner id ∙ rw other refl) ∙ h) in
              omega (arith, le)
        ];
  }

  Touches-Bumps :
      {before : Rows} {t : Tx} {ref : Ref} {u : Tx} {n : ℕ}
      → ((owner id : String)
          → lookup (Key.collection owner id) t.rows ≡ lookup (Key.collection owner id) before)
      → lookup Key.ctag t.rows ≡ lookup Key.ctag before
      → Counted before n
      → n + 1 < 2 ^ 64
      → Touches t ref u
      → Bumps before ref n u.rows
  unfolding key_eq
  Touches-Bumps {before} {t} {ref} {u} {n} same same_ctag counted small s =
      let is_last : s.last ≡ n = Counted-unique before s.last n (moved s.counted) counted in
      let next : u64 (s.last + 1) ≡ n + 1 =
        ap (λ x. u64 (x + 1)) is_last ∙ u64-small (n + 1) small in
      record {
        collection = s.collection;
        stored = sym (same _ _) ∙ s.stored;
        bumped = λ owner id. rw (s.after, lookup-insert, lookup-insert, same, next) refl;
        counted = rw (s.after, lookup-insert, lookup-insert, next) refl;
      }
    where
      moved : {m : ℕ} → Counted t.rows m → Counted before m
      moved (unset l e) = unset (sym same_ctag ∙ l) e
      moved (set_to l) = set_to (sym same_ctag ∙ l)

  Puts-Bumps :
      {t : Tx} {ref : Ref} {name : String} {o : Object} {u : Tx} {n : ℕ}
      → Counted t.rows n
      → n + 1 < 2 ^ 64
      → Writes t ref name o u
      → Bumps t.rows ref n u.rows
  unfolding key_eq
  Puts-Bumps {t} {ref} {name} {o} {u} {n} counted small s =
      Touches-Bumps
        (λ owner id. rw (s.write, lookup-insert) (below s.index (Key.collection owner id) refl))
        (rw (s.write, lookup-insert) (below s.index Key.ctag refl)) counted small s.stamp
    where
      below :
          {v : Tx}
          → Indexes t ref name o.uid v
          → (k : Key) → key_eq (uid_key ref o.uid) k ≡ false
          → lookup k v.rows ≡ lookup k t.rows
      below (no_uid e f) k apart = rw f refl
      below (indexed e free f) k apart = rw (f, lookup-insert, apart) refl

  Removes-Bumps :
      {t : Tx} {ref : Ref} {name by : String} {now : ℕ} {u : Tx} {n : ℕ}
      → Counted t.rows n
      → n + 1 < 2 ^ 64
      → Removes t ref name by now u
      → Bumps t.rows ref n u.rows
  unfolding key_eq
  Removes-Bumps {t} {ref} {u = u} counted small s =
      Touches-Bumps
        (λ owner id. rw (s.removed, lookup-remove) (below s.unindex (Key.collection owner id) refl))
        (rw (s.removed, lookup-remove) (below s.unindex Key.ctag refl)) counted small s.stamp
    where
      below :
          ((s.old.uid ≡ "") × (s.unindexed ≡ t.rows))
            ⊎ (((s.old.uid == "") ≡ false) × (s.unindexed ≡ remove (uid_key ref s.old.uid) t.rows))
          → (k : Key) → key_eq (uid_key ref s.old.uid) k ≡ false
          → lookup k s.unindexed ≡ lookup k t.rows
      below (inl (e, f)) k apart = rw f refl
      below (inr (e, f)) k apart = rw (f, lookup-remove, apart) refl

  -- A successful `PutObject` gives the collection the ctag after the counter's, one that no
  -- collection has had, leaves every other collection as it was, and keeps the counter past every
  -- ctag; the counter was past every ctag before and is not about to wrap.
  pub put_object-Bumps :
      (ref : Ref) (name uid bytes : String) (unless : Unless) (by : String) (now : ℕ) (db : Db)
      (n : ℕ) {o : Object} {db' : Db}
      → CtagBounded db.rows n
      → n + 1 < 2 ^ 64
      → put_object ref name uid bytes unless by now db ≡ (ok o, db')
      → Bumps db.rows ref n db'.rows × CtagBounded db'.rows (n + 1)
  unfolding put_object
  put_object-Bumps ref name uid bytes unless by now db n b small h =
      let run = update-run (put_object_in ref name uid bytes unless by now) db h in
      let puts = put_object_in-Puts ref name uid bytes unless by now (begin true db) refl run.ran in
      let bumps =
        subst (Bumps db.rows ref n) (sym run.rows_kept) (Puts-Bumps b.counted small puts.writes) in
      (bumps, Bumps-CtagBounded b bumps)

  -- A successful `RemoveObject` gives the collection the ctag after the counter's, one that no
  -- collection has had, leaves every other collection as it was, and keeps the counter past every
  -- ctag; the counter was past every ctag before and is not about to wrap.
  pub remove_object-Bumps :
      (ref : Ref) (name : String) (unless : Unless) (by : String) (now : ℕ) (db : Db) (n : ℕ)
      {db' : Db}
      → CtagBounded db.rows n
      → n + 1 < 2 ^ 64
      → remove_object ref name unless by now db ≡ (ok tt, db')
      → Bumps db.rows ref n db'.rows × CtagBounded db'.rows (n + 1)
  unfolding remove_object
  remove_object-Bumps ref name unless by now db n b small h =
      let run = update-run (remove_object_in ref name unless by now) db h in
      let removes = remove_object_in-Removes ref name unless by now (begin true db) refl run.ran in
      let bumps =
        subst (Bumps db.rows ref n) (sym run.rows_kept) (Removes-Bumps b.counted small removes) in
      (bumps, Bumps-CtagBounded b bumps)
