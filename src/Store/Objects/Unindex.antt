-- ===== src/Store/Objects/Unindex.antt =====
-- Removing an object takes its UID's entry with it, and no other's.
use text.Mathlib.Text.{◌==◌}
use alborz.Prelude.{
  ℕ, String, false, none, some, ◌≡◌, ◌⊎◌, inl, inr, sym, ap, ◌∙◌, if◌then◌else◌, Bool-cases,
}
use alborz.Store.Types.{Ref, Object}
use alborz.Store.Keys.{Key, key_eq, key_eq_iff}
use alborz.Store.Stored.{Stored}
use alborz.Store.Rows.{lookup, remove, lookup-remove}
use alborz.Store.Env.{Env}
use alborz.Store.Tx.{Tx}
use alborz.Store.Names.{object_key, uid_key}
use alborz.Store.Objects.Run.{Removes}
use alborz.Store.Objects.Uids.{UidIndexed, UidIndexed-unique, Touches-objects, never_true}

module _ ⦃env : Env⦄ where
  -- What stands under a name after `RemoveObject`.
  pub Removes-object :
      {t : Tx} {ref : Ref} {name by : String} {now : ℕ} {u : Tx} (owner id n : String)
      → Removes t ref name by now u
      → lookup (Key.object owner id n) u.rows ≡ (
          if key_eq (object_key ref name) (Key.object owner id n)
          then none
          else lookup (Key.object owner id n) t.rows)
  unfolding key_eq
  Removes-object {t} {ref} {name} {u = u} owner id n s =
      (Touches-objects owner id n s.stamp).0 ∙ rw (s.removed, lookup-remove) (below s.unindex)
    where
      below :
          ((s.old.uid ≡ "") × (s.unindexed ≡ t.rows))
            ⊎ (((s.old.uid == "") ≡ false) × (s.unindexed ≡ remove (uid_key ref s.old.uid) t.rows))
          → (if key_eq (object_key ref name) (Key.object owner id n)
              then none
              else lookup (Key.object owner id n) s.unindexed)
            ≡ (if key_eq (object_key ref name) (Key.object owner id n)
                then none
                else lookup (Key.object owner id n) t.rows)
      below (inl (e, f)) = rw f
      below (inr (e, f)) = rw (f, lookup-remove)

  Removes-uid :
      {t : Tx} {ref : Ref} {name by : String} {now : ℕ} {u : Tx} (owner id n : String)
      (s : Removes t ref name by now u)
      → (lookup (Key.uid owner id n) u.rows ≡ lookup (Key.uid owner id n) t.rows)
        ⊎ (((s.old.uid == "") ≡ false) × (uid_key ref s.old.uid ≡ Key.uid owner id n))
  unfolding key_eq
  Removes-uid {t} {ref} {name} {u = u} owner id n s =
      below s.unindex ((Touches-objects owner id n s.stamp).1 ∙ rw (s.removed, lookup-remove))
    where
      below :
          ((s.old.uid ≡ "") × (s.unindexed ≡ t.rows))
            ⊎ (((s.old.uid == "") ≡ false) × (s.unindexed ≡ remove (uid_key ref s.old.uid) t.rows))
          → lookup (Key.uid owner id n) u.rows ≡ lookup (Key.uid owner id n) s.unindexed
          → (lookup (Key.uid owner id n) u.rows ≡ lookup (Key.uid owner id n) t.rows)
            ⊎ (((s.old.uid == "") ≡ false) × (uid_key ref s.old.uid ≡ Key.uid owner id n))
      below (inl (e, f)) g = inl (g ∙ ap (lookup (Key.uid owner id n)) f)
      below (inr (e, f)) g =
          elim (Bool-cases (key_eq (uid_key ref s.old.uid) (Key.uid owner id n))) [
            | inl same ↦ inr (e, (key_eq_iff (uid_key ref s.old.uid) (Key.uid owner id n)).0 same)
            | inr other ↦ inl (
                g
                ∙ ap (lookup (Key.uid owner id n)) f
                ∙ lookup-remove (uid_key ref s.old.uid) (Key.uid owner id n) t.rows
                ∙ rw other)
          ]

  module _ (name_of_injective : (a b : String) → env.name_of a ≡ env.name_of b → a ≡ b) where
    pub Removes-UidIndexed :
        {t : Tx} {ref : Ref} {name by : String} {now : ℕ} {u : Tx} (owner id : String)
        → Removes t ref name by now u
        → UidIndexed t.rows owner id
        → UidIndexed u.rows owner id
    Removes-UidIndexed {t} {ref} {name} {u = u} owner id s i = record {
      own_name = λ n p h. i.own_name n p (still n p h).1;
      entry = λ n p h ne.
          let (apart, h') = still n p h in
          elim (Removes-uid owner id (env.name_of p.uid) s) [
            | inl kept ↦ kept ∙ i.entry n p h' ne
            | inr (has, same) ↦
                let eu : s.old.uid ≡ p.uid = name_of_injective s.old.uid p.uid (cc same) in
                let k : object_key ref name ≡ Key.object owner id (env.name_of name) = cc same in
                let en : n ≡ env.name_of name =
                  UidIndexed-unique t.rows owner id n (env.name_of name) p s.old i h'
                    (ap (λ x. lookup x t.rows) (sym k) ∙ s.held) (sym eu) ne in
                absurd (apart (k ∙ ap (Key.object owner id) (sym en)))
          ];
    }
      where
        some_none : {x : Stored} → some x ≡ none → ⊥
        some_none e = cc

        still :
            (n : String) (p : Object)
            → lookup (Key.object owner id n) u.rows ≡ some (Stored.object p)
            → (object_key ref name ≡ Key.object owner id n → ⊥)
              × (lookup (Key.object owner id n) t.rows ≡ some (Stored.object p))
        still n p h = elim (Bool-cases (key_eq (object_key ref name) (Key.object owner id n))) [
          | inl here ↦
              let gone : lookup (Key.object owner id n) u.rows ≡ none =
                Removes-object owner id n s ∙ rw here in
              absurd (some_none (sym h ∙ gone))
          | inr other ↦ (
            (λ e.
                never_true
                  (sym other ∙ (key_eq_iff (object_key ref name) (Key.object owner id n)).1 e)),
            sym (Removes-object owner id n s ∙ rw other) ∙ h,
          )
        ]
