-- ===== src/Store/Objects/Uids.antt =====
-- No two objects of a collection have the same UID, and the index says which has it.
use text.Mathlib.Text.{◌==◌}
use alborz.Prelude.{
  String, true, false, some, ◌≡◌, ◌≢◌, ◌⊎◌, inl, inr, sym, ap, ◌∙◌, if◌then◌else◌, Bool-cases,
  subst,
}
use alborz.Store.Types.{Ref, Object}
use alborz.Store.Keys.{Key, key_eq, key_eq_iff}
use alborz.Store.Stored.{Stored, plain}
use alborz.Store.Rows.{Rows, lookup, lookup-insert}
use alborz.Store.Env.{Env}
use alborz.Store.Tx.{Tx}
use alborz.Store.Names.{object_key, uid_key, owner_part}
use alborz.Store.Collections.Stamp.{Touches}
use alborz.Store.Objects.Held.{IsFree, Indexes, no_uid, indexed}
use alborz.Store.Objects.Run.{Writes}

module _ ⦃env : Env⦄ where
  -- In the collection of these keyed names, every object stands under its own name, and the index
  -- leads from its UID, if it has one, to that name.
  pub record UidIndexed (rows : Rows) (owner id : String) : Type 0 where
    pub own_name :
        (n : String) (o : Object)
        → lookup (Key.object owner id n) rows ≡ some (Stored.object o)
        → n ≡ env.name_of o.name
    pub entry :
        (n : String) (o : Object)
        → lookup (Key.object owner id n) rows ≡ some (Stored.object o)
        → o.uid ≢ ""
        → lookup (Key.uid owner id (env.name_of o.uid)) rows ≡ some (plain o.name)

  -- So a UID is never that of two objects of a collection.
  pub UidIndexed-unique :
      (rows : Rows) (owner id n m : String) (o p : Object)
      → UidIndexed rows owner id
      → lookup (Key.object owner id n) rows ≡ some (Stored.object o)
      → lookup (Key.object owner id m) rows ≡ some (Stored.object p)
      → o.uid ≡ p.uid
      → o.uid ≢ ""
      → n ≡ m
  UidIndexed-unique rows owner id n m o p i ho hp e ne =
      let a = i.entry n o ho ne in
      let b = i.entry m p hp (λ x. ne (e ∙ x)) in
      let same : o.name ≡ p.name = cc (a, b, ap env.name_of e) in
      i.own_name n o ho ∙ ap env.name_of same ∙ sym (i.own_name m p hp)

  -- `touch` moves neither objects nor the index.
  pub Touches-objects :
      {t : Tx} {ref : Ref} {u : Tx} (owner id n : String)
      → Touches t ref u
      → (lookup (Key.object owner id n) u.rows ≡ lookup (Key.object owner id n) t.rows)
        × (lookup (Key.uid owner id n) u.rows ≡ lookup (Key.uid owner id n) t.rows)
  unfolding key_eq
  Touches-objects {t} {ref} owner id n s =
      (rw (s.after, lookup-insert, lookup-insert), rw (s.after, lookup-insert, lookup-insert))

  -- The objects and the index after `PutObject`.
  pub Writes-object :
      {t : Tx} {ref : Ref} {name : String} {o : Object} {u : Tx} (owner id n : String)
      → Writes t ref name o u
      → lookup (Key.object owner id n) u.rows ≡ (
          if key_eq (object_key ref name) (Key.object owner id n)
          then some (Stored.object o)
          else lookup (Key.object owner id n) t.rows)
  unfolding key_eq
  Writes-object {t} {ref} {name} {o} {u} owner id n s =
      (Touches-objects owner id n s.stamp).0 ∙ rw (s.write, lookup-insert) (below s.index)
    where
      below :
          {v : Tx}
          → Indexes t ref name o.uid v
          → (if key_eq (object_key ref name) (Key.object owner id n)
              then some (Stored.object o)
              else lookup (Key.object owner id n) v.rows)
            ≡ (if key_eq (object_key ref name) (Key.object owner id n)
                then some (Stored.object o)
                else lookup (Key.object owner id n) t.rows)
      below (no_uid e f) = rw f
      below (indexed e free f) = rw (f, lookup-insert)

  Writes-uid :
      {t : Tx} {ref : Ref} {name : String} {o : Object} {u : Tx} (owner id n : String)
      → Writes t ref name o u
      → ((o.uid ≡ "") × (lookup (Key.uid owner id n) u.rows ≡ lookup (Key.uid owner id n) t.rows))
        ⊎ (((o.uid == "") ≡ false)
            × IsFree t.rows ref name o.uid
            × (lookup (Key.uid owner id n) u.rows ≡ (
                if key_eq (uid_key ref o.uid) (Key.uid owner id n)
                then some (plain name)
                else lookup (Key.uid owner id n) t.rows)))
  unfolding key_eq
  Writes-uid {t} {ref} {name} {o} {u} owner id n s =
      below s.index ((Touches-objects owner id n s.stamp).1 ∙ rw (s.write, lookup-insert))
    where
      below :
          {v : Tx}
          → Indexes t ref name o.uid v
          → lookup (Key.uid owner id n) u.rows ≡ lookup (Key.uid owner id n) v.rows
          → ((o.uid ≡ "")
              × (lookup (Key.uid owner id n) u.rows ≡ lookup (Key.uid owner id n) t.rows))
            ⊎ (((o.uid == "") ≡ false)
                × IsFree t.rows ref name o.uid
                × (lookup (Key.uid owner id n) u.rows ≡ (
                    if key_eq (uid_key ref o.uid) (Key.uid owner id n)
                    then some (plain name)
                    else lookup (Key.uid owner id n) t.rows)))
      below (no_uid e f) g = inl (e, g ∙ rw f)
      below (indexed e free f) g = inr (e, free, g ∙ rw (f, lookup-insert))

  pub never_true : false ≡ true → ⊥
  never_true e = cc

  module _ (name_of_injective : (a b : String) → env.name_of a ≡ env.name_of b → a ≡ b) where
    -- The object just written, at its own name.
    here_lem :
        {t : Tx} {ref : Ref} {name : String} {o : Object} {u : Tx} (owner id n : String)
        (p : Object)
        → Writes t ref name o u
        → object_key ref name ≡ Key.object owner id n
        → lookup (Key.object owner id n) u.rows ≡ some (Stored.object p)
        → o ≡ p
    here_lem {t} {ref} {name} {o} owner id n p s e h =
        let at_key : lookup (Key.object owner id n) _ ≡ some (Stored.object o) =
          Writes-object owner id n s
          ∙ rw ((key_eq_iff (object_key ref name) (Key.object owner id n)).1 e) in
        cc (at_key, h)

    entry_here :
        {t : Tx} {ref : Ref} {name : String} {o : Object} {u : Tx} (owner id : String)
        → o.name ≡ name
        → Writes t ref name o u
        → owner_part ref.owner ≡ owner
        → env.name_of ref.id ≡ id
        → o.uid ≢ ""
        → lookup (Key.uid owner id (env.name_of o.uid)) u.rows ≡ some (plain o.name)
    entry_here {t} {ref} {name} {o} {u} owner id named s eo ei ne =
        elim (Writes-uid owner id (env.name_of o.uid) s) [
          | inl (empty, f) ↦ absurd (ne empty)
          | inr (has, free, f) ↦
              let same : uid_key ref o.uid ≡ Key.uid owner id (env.name_of o.uid) = cc in
              f
              ∙ rw ((key_eq_iff (uid_key ref o.uid) (Key.uid owner id (env.name_of o.uid))).1 same)
                  (ap (λ x. some (plain x)) (sym named))
        ]

    entry_other :
        {t : Tx} {ref : Ref} {name : String} {o : Object} {u : Tx} (owner id n : String)
        (p : Object)
        → Writes t ref name o u
        → UidIndexed t.rows owner id
        → (object_key ref name ≡ Key.object owner id n → ⊥)
        → lookup (Key.object owner id n) t.rows ≡ some (Stored.object p)
        → p.uid ≢ ""
        → lookup (Key.uid owner id (env.name_of p.uid)) u.rows ≡ some (plain p.name)
    entry_other {t} {ref} {name} {o} {u} owner id n p s i apart h ne =
        let old = i.entry n p h ne in
        let k = Key.uid owner id (env.name_of p.uid) in
        elim (Writes-uid owner id (env.name_of p.uid) s) [
          | inl (empty, f) ↦ f ∙ old
          | inr (has, free, f) ↦ elim (Bool-cases (key_eq (uid_key ref o.uid) k)) [
            | inr other ↦ f ∙ rw other old
            | inl same ↦
                let e : uid_key ref o.uid ≡ k = (key_eq_iff (uid_key ref o.uid) k).0 same in
                let eu : o.uid ≡ p.uid = name_of_injective o.uid p.uid (cc e) in
                let en : n ≡ env.name_of p.name = i.own_name n p h in
                let at_holder : object_key ref p.name ≡ Key.object owner id n = cc (e, en) in
                let names : p.name ≡ name =
                  free.holder_agrees p.name p (ap (λ x. lookup x t.rows) e ∙ old)
                    (ap (λ x. lookup x t.rows) at_holder ∙ h) (sym eu) in
                absurd (apart (ap (object_key ref) (sym names) ∙ at_holder))
          ]
        ]

    pub Writes-UidIndexed :
        {t : Tx} {ref : Ref} {name : String} {o : Object} {u : Tx} (owner id : String)
        → o.name ≡ name
        → Writes t ref name o u
        → UidIndexed t.rows owner id
        → UidIndexed u.rows owner id
    Writes-UidIndexed {t} {ref} {name} {o} {u} owner id named s i = record {
      own_name = λ n p h. elim (at n) [
        | inl here ↦
            let e : o ≡ p = here_lem owner id n p s here h in
            let en : env.name_of name ≡ n = cc here in
            sym en ∙ ap env.name_of (sym named) ∙ ap (λ x. env.name_of x.name) e
        | inr (other, k) ↦ i.own_name n p (sym k ∙ h)
      ];
      entry = λ n p h ne. elim (at n) [
        | inl here ↦
            let e : o ≡ p = here_lem owner id n p s here h in
            subst (λ x. lookup (Key.uid owner id (env.name_of x.uid)) u.rows ≡ some (plain x.name))
              e
              (entry_here owner id named s (cc here) (cc here)
                (λ z. ne (ap (λ x. x.uid) (sym e) ∙ z)))
        | inr (other, k) ↦ entry_other owner id n p s i other (sym k ∙ h) ne
      ];
    }
      where
        at :
            (n : String)
            → (object_key ref name ≡ Key.object owner id n)
              ⊎ ((object_key ref name ≡ Key.object owner id n → ⊥)
                  × (lookup (Key.object owner id n) u.rows ≡ lookup (Key.object owner id n) t.rows))
        at n = elim (Bool-cases (key_eq (object_key ref name) (Key.object owner id n))) [
          | inl here ↦ inl ((key_eq_iff (object_key ref name) (Key.object owner id n)).0 here)
          | inr other ↦ inr (
            (λ e.
                never_true
                  (sym other ∙ (key_eq_iff (object_key ref name) (Key.object owner id n)).1 e)),
            Writes-object owner id n s ∙ rw other,
          )
        ]
