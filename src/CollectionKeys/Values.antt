-- ===== src/CollectionKeys/Values.antt =====
-- Reading a collection's records, and putting them back under another key.
use text.Mathlib.Text.{◌==◌ as text_eq}
use alborz.Prelude.{
  ℕ, String, true, false, List, [], ◌∷◌, All, Option, none, some, ok, ◌==◌, if◌then◌else◌, ◌≡◌, ◌⊎◌,
  inl, inr, refl, ap, ◌∙◌, sym, arith, eq_refl, eq_iff, Result-cases, Option-cases, Bool-cases,
}
use alborz.Seal.{Crypto, SealKey, Sealed, by_account, format_of, seal, open_sealed}
use alborz.CollectionKeys.{
  ValueKey, same_scope, same_key, in_scope, CollectionKey, KeysTx, read_key, collection, open_value,
  open_all, scope_opened,
}
use alborz.CollectionKeys.Ops.{put_value, put_all}

-- The data file has one value under each key.
abbrev pub IsApart : {A : Type 0} → ValueKey → List (ValueKey × A) → Type 0
IsApart k rows = All (λ row. same_key k row.0 ≡ false) rows

abbrev pub IsMap : {A : Type 0} → List (ValueKey × A) → Type 0
IsMap [] = Unit
IsMap ((k, v) ∷ rows) = IsApart k rows × IsMap rows

pub same_key_refl : (k : ValueKey) → same_key k k ≡ true
same_key_refl k = elim (Option-cases k.scope) [
  | inl e ↦ ground (arith, e, eq_refl k.name)
  | inr (scope, e) ↦ ground (arith, e, eq_refl scope, eq_refl k.name)
]

same_scope_eq : (a b : Option String) → same_scope a b ≡ true → a ≡ b
same_scope_eq none none h = refl
same_scope_eq none (some b) h = absurd cc
same_scope_eq (some a) none h = absurd cc
same_scope_eq (some a) (some b) h = ap some ((eq_iff a b).0 h)

pub same_key_eq : (j k : ValueKey) → same_key j k ≡ true → j ≡ k
same_key_eq j k h =
    let scopes = same_scope_eq j.scope k.scope (ground (arith, h)) in
    let names = (eq_iff j.name k.name).0 (ground (arith, h)) in ground (arith, scopes, names)

module _ ⦃crypto : Crypto⦄ where
  pub put_all-apart :
      (key : SealKey) (j : ValueKey) (w : Sealed) (vs : List (ValueKey × String))
      (rows : List (ValueKey × Sealed))
      → IsApart j vs
      → put_all key vs ((j, w) ∷ rows) ≡ (j, w) ∷ put_all key vs rows
  unfolding put_all put_value
  put_all-apart key j w [] rows h = refl
  put_all-apart key j w ((k, plain) ∷ vs) rows (e, h) =
      ground (arith, e, put_all-apart key j w vs (put_value k (seal key plain) rows) h)

  pub put_all-first :
      (key : SealKey) (k : ValueKey) (s : Sealed) (plain : String) (vs : List (ValueKey × String))
      (rows : List (ValueKey × Sealed))
      → IsApart k vs
      → put_all key ((k, plain) ∷ vs) ((k, s) ∷ rows) ≡ (k, seal key plain) ∷ put_all key vs rows
  unfolding put_all put_value
  put_all-first key k s plain vs rows h =
      ground (arith, same_key_refl k, put_all-apart key k (seal key plain) vs rows h)

  module _ (size : String → ℕ) where
    pub collection-cases :
        (scope : String) (t : KeysTx) {c : CollectionKey} {u : KeysTx}
        → collection size scope t ≡ ok (c, u)
        → (t.held scope ≡ some c × u ≡ t)
          ⊎ (t.held scope ≡ none
              × read_key size scope t ≡ ok c
              × u
                ≡ record t { held = λ other. if text_eq scope other then some c else t.held other })
    unfolding collection
    collection-cases scope t {c} {u} h = elim (Option-cases (t.held scope)) [
      | inr (d, e) ↦ inl (ground (arith, e, h))
      | inl e ↦ elim (Result-cases (read_key size scope t)) [
        | inl (x, f) ↦ absurd (ground (arith, e, f, h))
        | inr (d, f) ↦ inr (ground (arith, e, f, h))
      ]
    ]

    -- What `collection` answers it holds, and nothing else changes.
    pub collection-held :
        (scope : String) (t : KeysTx) {c : CollectionKey} {u : KeysTx}
        → collection size scope t ≡ ok (c, u)
        → u.held scope ≡ some c
    collection-held scope t h = elim (collection-cases scope t h) [
      | inl (e, same) ↦ ap (λ (x : KeysTx). x.held scope) same ∙ e
      | inr (e, read, same) ↦ ap (λ (x : KeysTx). x.held scope) same ∙ ground (arith, eq_refl scope)
    ]

    pub collection-keeps :
        (scope : String) (t : KeysTx) {c : CollectionKey} {u : KeysTx}
        → collection size scope t ≡ ok (c, u)
        → u ≡ record t { held = u.held }
    collection-keeps scope t h = elim (collection-cases scope t h) [
      | inl (e, same) ↦ ground (arith, same)
      | inr (e, read, same) ↦ ground (arith, same)
    ]

    pub collection-again :
        (scope : String) (u : KeysTx) {c : CollectionKey}
        → u.held scope ≡ some c
        → collection size scope u ≡ ok (c, u)
    unfolding collection
    collection-again scope u h = ground (arith, h)

    -- A value opens to the same once the collection's key was looked at.
    open_value-again :
        (scope : String) (s : Sealed) (t : KeysTx) {c : CollectionKey} {t1 u : KeysTx}
        {plain : String}
        → collection size scope t ≡ ok (c, t1)
        → open_value size scope s t ≡ ok (plain, u)
        → (open_value size scope s t1 ≡ ok (plain, t1)) × (collection size scope u ≡ ok (c, t1))
    unfolding open_value
    open_value-again scope s t {c} {t1} {u} {plain} h run =
        let held : t1.held scope ≡ some c = collection-held scope t h in
        let keeps : t1 ≡ record t { held = t1.held } = collection-keeps scope t h in
        let key : t1.instance_key ≡ t.instance_key = ap (λ (x : KeysTx). x.instance_key) keeps in
        let again = collection-again scope t1 held in
        elim (Bool-cases (format_of s == by_account)) [
          | inr plainly ↦ elim (Result-cases (open_sealed t.instance_key s)) [
            | inl (e, f) ↦ absurd (ground (arith, plainly, f, run))
            | inr (p, f) ↦
                (ground (arith, plainly, f, key, run), ground (arith, plainly, f, run, h))
          ]
          | inl scoped ↦ elim (Result-cases (scope_opened s c)) [
            | inl (e, f) ↦ absurd (ground (arith, scoped, h, f, run))
            | inr (p, f) ↦
                (ground (arith, scoped, h, f, again, run), ground (arith, scoped, h, f, again, run))
          ]
        ]

    -- How a scan that succeeds went over its first record.
    pub data Scanned (scope : String) (k : ValueKey) (s : Sealed) (rows : List (ValueKey × Sealed))
        (t : KeysTx) : List (ValueKey × String) → KeysTx → Type 0 where
      passed_over :
          {vs : List (ValueKey × String)} {u : KeysTx}
          → in_scope scope k ≡ false
          → open_all size scope rows t ≡ ok (vs, u)
          → Scanned scope k s rows t vs u
      taken :
          {vs ps : List (ValueKey × String)} {u v : KeysTx} {plain : String}
          → in_scope scope k ≡ true
          → open_value size scope s t ≡ ok (plain, v)
          → open_all size scope rows v ≡ ok (ps, u)
          → vs ≡ (k, plain) ∷ ps
          → Scanned scope k s rows t vs u

    pub open_all-Scanned :
        (scope : String) (k : ValueKey) (s : Sealed) (rows : List (ValueKey × Sealed)) (t : KeysTx)
        {vs : List (ValueKey × String)} {u : KeysTx}
        → open_all size scope ((k, s) ∷ rows) t ≡ ok (vs, u)
        → Scanned scope k s rows t vs u
    unfolding open_all
    open_all-Scanned scope k s rows t {vs} {u} run = elim (Bool-cases (in_scope scope k)) [
      | inr out ↦ passed_over out (ground (arith, out, run))
      | inl within ↦ elim (Result-cases (open_value size scope s t)) [
        | inl (e, f) ↦ absurd (ground (arith, within, f, run))
        | inr ((p, v), f) ↦ elim (Result-cases (open_all size scope rows v)) [
          | inl (e, g) ↦ absurd (ground (arith, within, f, g, run))
          | inr ((ps, w), g) ↦
              let end : w ≡ u = ground (arith, within, f, g, run) in
              taken within f (g ∙ ap (λ x. ok (ps, x)) end) (ground (arith, within, f, g, run))
        ]
      ]
    ]

    open_all-passed :
        (scope : String) (k : ValueKey) (s : Sealed) (rows : List (ValueKey × Sealed)) (t : KeysTx)
        → in_scope scope k ≡ false
        → open_all size scope ((k, s) ∷ rows) t ≡ open_all size scope rows t
    unfolding open_all
    open_all-passed scope k s rows t out = ground (arith, out)

    open_all-taken :
        (scope : String) (k : ValueKey) (s : Sealed) (rows : List (ValueKey × Sealed)) (t : KeysTx)
        {plain : String} {ps : List (ValueKey × String)} {v u : KeysTx}
        → in_scope scope k ≡ true
        → open_value size scope s t ≡ ok (plain, v)
        → open_all size scope rows v ≡ ok (ps, u)
        → open_all size scope ((k, s) ∷ rows) t ≡ ok ((k, plain) ∷ ps, u)
    unfolding open_all
    open_all-taken scope k s rows t within first rest = ground (arith, within, first, rest)

    pub open_all-again :
        (scope : String) (rows : List (ValueKey × Sealed)) (t : KeysTx) {c : CollectionKey}
        {t1 u : KeysTx} {vs : List (ValueKey × String)}
        → collection size scope t ≡ ok (c, t1)
        → open_all size scope rows t ≡ ok (vs, u)
        → open_all size scope rows t1 ≡ ok (vs, t1)
    unfolding open_all
    open_all-again scope [] t h run = ground (arith, run)
    open_all-again scope ((k, s) ∷ rows) t {c} {t1} {u} {vs} h run =
        elim (open_all-Scanned scope k s rows t run) [
          | passed_over out rest ↦
              open_all-passed scope k s rows t1 out ∙ open_all-again scope rows t h rest
          | taken {v = v} within first rest e ↦
              let (same, next) = open_value-again scope s t h first in
              open_all-taken scope k s rows t1 within same (open_all-again scope rows v next rest)
              ∙ ap (λ x. ok (x, t1)) (sym e)
        ]

    -- No record is opened but those of the list.
    pub open_all-IsApart :
        (scope : String) (j : ValueKey) (rows : List (ValueKey × Sealed)) (t : KeysTx) {u : KeysTx}
        {vs : List (ValueKey × String)}
        → IsApart j rows
        → open_all size scope rows t ≡ ok (vs, u)
        → IsApart j vs
    unfolding open_all
    open_all-IsApart scope j [] t {u} {vs} h run = let e : vs ≡ [] = ground (arith, run) in rw e tt
    open_all-IsApart scope j ((k, s) ∷ rows) t {u} {vs} (apart, h) run =
        elim (open_all-Scanned scope k s rows t run) [
          | passed_over out rest ↦ open_all-IsApart scope j rows t h rest
          | taken {v = v} within first rest e ↦ rw e (apart, open_all-IsApart scope j rows v h rest)
        ]

    -- What was opened and put back under a key that a state opens, that state opens to the same.
    pub open_all-put_all :
        (scope : String) (key : SealKey) (rows : List (ValueKey × Sealed)) (t after : KeysTx)
        {u : KeysTx} {vs : List (ValueKey × String)}
        → ((plain : String) → open_value size scope (seal key plain) after ≡ ok (plain, after))
        → IsMap rows
        → open_all size scope rows t ≡ ok (vs, u)
        → open_all size scope (put_all key vs rows) after ≡ ok (vs, after)
    unfolding open_all put_all put_value
    open_all-put_all scope key [] t after {u} {vs} opens h run =
        let e : vs ≡ [] = ground (arith, run) in rw e refl
    open_all-put_all scope key ((k, s) ∷ rows) t after {u} {vs} opens (apart, h) run =
        elim (open_all-Scanned scope k s rows t run) [
          | passed_over out rest ↦
              ap (λ x. open_all size scope x after)
                (put_all-apart key k s vs rows (open_all-IsApart scope k rows t apart rest))
              ∙ open_all-passed scope k s (put_all key vs rows) after out
              ∙ open_all-put_all scope key rows t after opens h rest
          | taken {ps = ps} {v = v} {plain = plain} within first rest e ↦
              let apart' = open_all-IsApart scope k rows v apart rest in
              ap (λ x. open_all size scope (put_all key x ((k, s) ∷ rows)) after) e
              ∙ ap (λ x. open_all size scope x after) (put_all-first key k s plain ps rows apart')
              ∙ open_all-taken scope k (seal key plain) (put_all key ps rows) after within
                  (opens plain) (open_all-put_all scope key rows v after opens h rest)
              ∙ ap (λ x. ok (x, after)) (sym e)
        ]
