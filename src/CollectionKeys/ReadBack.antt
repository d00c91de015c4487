-- ===== src/CollectionKeys/ReadBack.antt =====
-- A value that was put reads back, whichever key it went under.
use alborz.Prelude.{
  ℕ, String, false, List, [], ◌∷◌, none, some, ok, ◌==◌, if◌then◌else◌, ◌≡◌, inl, inr, refl, ap,
  ◌∙◌, subst, sym, arith, Result-cases, Option-cases, Bool-cases,
}
use alborz.Seal.{Crypto, IsLawful, SealKey, Sealed, by_account, by_instance, seal, open_sealed-seal}
use alborz.CollectionKeys.{
  ValueKey, same_key, unreadable, key_record, key_size, secret_of, read_key, CollectionKey, KeysTx,
  is_locked, collection, open_value,
}
use alborz.CollectionKeys.Ops.{put_value}
use alborz.CollectionKeys.Values.{
  same_key_refl, same_key_eq, collection-cases, collection-held, collection-keeps, collection-again,
}
use alborz.CollectionKeys.Rekey.{instance_opens}
use alborz.CollectionKeys.Access.{scope_of, find_value, get, sealer, put}

module _ ⦃crypto : Crypto⦄ (size : String → ℕ) where
  abbrev Keeps : KeysTx → KeysTx → Type 0
  Keeps t u = u ≡ record t { held = u.held }

  -- The keys held are accounts' keys, as all are that `collection` makes.
  abbrev pub IsKeyed : KeysTx → Type 0
  IsKeyed t =
      (scope : String) (c : CollectionKey) (key : SealKey)
      → t.held scope ≡ some c
      → c.key ≡ some key
      → key.format ≡ by_account

  read_key-format :
      (scope : String) (t : KeysTx) {c : CollectionKey} {key : SealKey}
      → read_key size scope t ≡ ok c
      → c.key ≡ some key
      → key.format ≡ by_account
  unfolding read_key
  read_key-format scope t {c} {key} read is = elim (Option-cases (t.records scope)) [
    | inl none_there ↦ absurd (ground (arith, none_there, read, is))
    | inr (unreadable, there) ↦ absurd (ground (arith, there, read))
    | inr (key_record rec, there) ↦ elim (Option-cases (secret_of t scope rec)) [
      | inl fails ↦ absurd (ground (arith, there, fails, read, is))
      | inr (secret, opens) ↦
          ground (arith, there, opens, read, is, Bool-cases (size secret == key_size))
    ]
  ]

  collection-format :
      (scope : String) (t : KeysTx) {c : CollectionKey} {u : KeysTx} {key : SealKey}
      → IsKeyed t
      → collection size scope t ≡ ok (c, u)
      → c.key ≡ some key
      → key.format ≡ by_account
  collection-format scope t {c} {u} {key} keyed h is = elim (collection-cases size scope t h) [
    | inl (held, same) ↦ keyed scope c key held is
    | inr (fresh, read, same) ↦ read_key-format scope t read is
  ]

  find_value-put_value :
      (j k : ValueKey) (s : Sealed) (rows : List (ValueKey × Sealed))
      → find_value j (put_value k s rows) ≡ (if same_key k j then some s else find_value j rows)
  unfolding find_value put_value
  find_value-put_value j k s [] = refl
  find_value-put_value j k s ((i, w) ∷ rows) = elim (Bool-cases (same_key i k)) [
    | inl e ↦ let same = ap (λ x. same_key x j) (same_key_eq i k e) in ground (arith, e, same)
    | inr e ↦ elim (Bool-cases (same_key k j)) [
      | inr f ↦ ground (arith, e, f, find_value-put_value j k s rows)
      | inl f ↦
          let apart : same_key i j ≡ false = ap (same_key i) (sym (same_key_eq k j f)) ∙ e in
          ground (arith, e, f, apart, find_value-put_value j k s rows)
    ]
  ]

  -- Where a value goes: its collection's key, or the instance's.
  data SealsUnder (k : ValueKey) (t : KeysTx) (key : SealKey) : KeysTx → Type 0 where
    instance_sealed : {u : KeysTx} → key ≡ t.instance_key → Keeps t u → SealsUnder k t key u
    collection_sealed :
        {u : KeysTx} {scope : String} {c : CollectionKey}
        → k.scope ≡ some scope
        → collection size scope t ≡ ok (c, u)
        → c.key ≡ some key
        → SealsUnder k t key u

  sealer-SealsUnder :
      (k : ValueKey) (t : KeysTx) {key : SealKey} {u : KeysTx}
      → sealer size k t ≡ ok (key, u)
      → SealsUnder k t key u
  unfolding sealer
  sealer-SealsUnder k t {key} {u} run = elim (Option-cases k.scope) [
    | inl unscoped ↦
        let same : u ≡ t = ground (arith, unscoped, run) in
        instance_sealed (ground (arith, unscoped, run)) (ground (arith, same))
    | inr (scope, scoped) ↦ elim (Result-cases (collection size scope t)) [
      | inl (e, f) ↦ absurd (ground (arith, scoped, f, run))
      | inr ((c, t1), f) ↦
          let free : is_locked c ≡ false =
            ground (arith, scoped, f, run, Bool-cases (is_locked c)) in
          let same : t1 ≡ u = ground (arith, scoped, f, run, free) in
          let f1 : collection size scope t ≡ ok (c, u) = f ∙ ap (λ x. ok (c, x)) same in
          let keeps = collection-keeps size scope t f1 in
          elim (Option-cases c.key) [
            | inr (own, is) ↦
                collection_sealed scoped f1
                  (is ∙ ap some (ground (arith, scoped, f, run, free, is)))
            | inl without ↦
                instance_sealed
                  (ground (
                    arith,
                    scoped,
                    f,
                    run,
                    free,
                    without,
                    ap (λ (x : KeysTx). x.instance_key) keeps,
                  ))
                  keeps
          ]
    ]
  ]

  SealsUnder-Keeps :
      (k : ValueKey) (t : KeysTx) (key : SealKey) (u : KeysTx) → SealsUnder k t key u → Keeps t u
  SealsUnder-Keeps k t key u (instance_sealed e keeps) = keeps
  SealsUnder-Keeps k t key u (collection_sealed {scope = scope} scoped h is) =
      collection-keeps size scope t h

  get-found :
      (k : ValueKey) (t : KeysTx) {s : Sealed} {plain : String} {u : KeysTx}
      → find_value k t.values ≡ some s
      → open_value size (scope_of k) s t ≡ ok (plain, u)
      → get size k t ≡ (some plain, u)
  unfolding get
  get-found k t found opens = ground (arith, found, opens)

  module _ (lawful : IsLawful crypto) where
    own_opens :
        (scope plain : String) (key : SealKey) (t : KeysTx) {c : CollectionKey}
        → t.held scope ≡ some c
        → c.key ≡ some key
        → key.format ≡ by_account
        → open_value size scope (seal key plain) t ≡ ok (plain, t)
    unfolding open_value seal
    own_opens scope plain key t h is account = ground (
      arith,
      collection-again size scope t h,
      is,
      account,
      open_sealed-seal lawful key plain (ground (arith, account)),
    )

    -- The state afterwards, with other values, opens what was sealed.
    SealsUnder-opens :
        (k : ValueKey) (plain : String) (t u : KeysTx) (key : SealKey) (after : KeysTx)
        → t.instance_key.format ≡ by_instance
        → IsKeyed t
        → SealsUnder k t key u
        → after.held ≡ u.held
        → after.instance_key ≡ u.instance_key
        → open_value size (scope_of k) (seal key plain) after ≡ ok (plain, after)
    SealsUnder-opens k plain t u key after format keyed (instance_sealed e keeps) holds same =
        let is : after.instance_key ≡ key =
          same ∙ ap (λ (x : KeysTx). x.instance_key) keeps ∙ sym e in
        ap (λ x. open_value size (scope_of k) (seal x plain) after) (sym is)
        ∙ instance_opens size lawful (scope_of k) after plain (ground (arith, is, e, format))
    SealsUnder-opens k plain t u key after format keyed
          (collection_sealed {scope = scope} scoped h is) holds same =
        ap (λ x. open_value size x (seal key plain) after) (ground (arith, scoped))
        ∙ own_opens scope plain key after (ap (λ f. f scope) holds ∙ collection-held size scope t h)
            is (collection-format scope t keyed h is)

    -- What a transaction puts it reads back: where `Put` succeeds, `Get` in the same transaction opens
    -- the value to what was put, whether it went under a collection's key or the instance's, and
    -- what stands under another key is as it was. The instance's key is a login key's, and the
    -- keys held are accounts' keys.
    pub get-put_back :
        (k j : ValueKey) (plain : String) (t : KeysTx) {u : KeysTx}
        → t.instance_key.format ≡ by_instance
        → IsKeyed t
        → put size k plain t ≡ (none, u)
        → same_key k j ≡ false
        → (get size k u ≡ (some plain, u)) × (find_value j u.values ≡ find_value j t.values)
    unfolding put
    get-put_back k j plain t {u} format keyed run other = elim (Result-cases (sealer size k t)) [
      | inl (e, f) ↦ absurd (ground (arith, f, run))
      | inr ((key, t1), f) ↦
          let after : KeysTx = record t1 { values = put_value k (seal key plain) t1.values } in
          let done : after ≡ u = ground (arith, f, run) in
          let under = sealer-SealsUnder k t f in
          let opens = SealsUnder-opens k plain t t1 key after format keyed under refl refl in
          let stored = find_value-put_value k k (seal key plain) t1.values in
          let found : find_value k after.values ≡ some (seal key plain) =
            ground (arith, stored, same_key_refl k) in
          let keeps = SealsUnder-Keeps k t key t1 under in
          let others : find_value j after.values ≡ find_value j t.values =
            ground (arith, find_value-put_value j k (seal key plain) t1.values, other)
            ∙ ap (λ (x : KeysTx). find_value j x.values) keeps in
          subst
            (λ (x : KeysTx).
              (get size k x ≡ (some plain, x)) × (find_value j x.values ≡ find_value j t.values))
            done (get-found k after found opens, others)
    ]
