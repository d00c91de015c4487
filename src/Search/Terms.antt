-- ===== src/Search/Terms.antt =====
-- What every text parses to.
use alborz.Prelude.{
  ℕ, zero, suc, ◌<◌, true, false, not, ◌||◌, List, [], ◌∷◌, ◌++◌, some, length, All, All-append,
  ◌≡◌, inl, inr, refl, ap, ◌∙◌, subst, arith, Option-cases, Bool-cases,
}
use alborz.Search.{
  Bytes, space, colon, take, drop, index_byte, has_byte, begins_with, phrased, bare_len,
}
use alborz.Search.Parse.{
  Term, Query, is_empty, is_plain, flush, bare_term, word_term, keyed_term, join, trim_left,
  bare_loop, bare_terms, key_of, value_of, token_terms, all_terms, of_tokens, parse,
}
use alborz.Search.Advance.{scan_tokens-total}
use alborz.Search.Turns.{begins_with-trim_left, bare_len-positive}
use alborz.Search.Words.{bare_terms-total}

abbrev pub HasValue : Term → Type 0
HasValue t = is_empty t.value ≡ false

abbrev IsWord : Bytes → Type 0
IsWord word = is_empty word ≡ false

append-IsWord : (a b : Bytes) → IsWord a → IsWord (a ++ b)
append-IsWord [] b h = absurd cc
append-IsWord (c ∷ a) b h = refl

flush-HasValue : (words : List Bytes) → All IsWord words → All HasValue (flush words)
unfolding join
flush-HasValue [] h = tt
flush-HasValue (word ∷ []) (h, all) = (h, tt)
flush-HasValue (word ∷ w ∷ words) (h, all) = (append-IsWord word (space ∷ join (w ∷ words)) h, tt)

take-IsWord : (n : ℕ) (c : ℕ) (b : Bytes) → 0 < n → IsWord (take n (c ∷ b))
unfolding take
take-IsWord zero c b h = absurd (omega (arith, h))
take-IsWord (suc n) c b h = refl

plain-HasValue : (word : Bytes) → is_plain word ≡ false → HasValue (bare_term word)
plain-HasValue word h = ground (arith, h)

bare_loop-HasValue :
    (fuel : ℕ) (run : Bytes) (words : List Bytes) {terms : List Term}
    → begins_with space run ≡ false
    → All IsWord words
    → bare_loop fuel run words ≡ some terms
    → All HasValue terms
unfolding bare_loop
bare_loop-HasValue zero run words h all found = absurd cc
bare_loop-HasValue (suc fuel) [] words {terms} h all found =
    let e : flush words ≡ terms = ground (arith, found) in
    subst (All HasValue) e (flush-HasValue words all)
bare_loop-HasValue (suc fuel) (c ∷ b) words {terms} h all found =
    let word = take (bare_len (c ∷ b)) (c ∷ b) in
    let run = trim_left (drop (bare_len (c ∷ b)) (c ∷ b)) in
    let is_word = take-IsWord (bare_len (c ∷ b)) c b (bare_len-positive c b h) in
    let trimmed = begins_with-trim_left (drop (bare_len (c ∷ b)) (c ∷ b)) in
    elim (Bool-cases (is_plain word)) [
      | inl e ↦ elim (Option-cases (bare_loop fuel run (words ++ word ∷ []))) [
        | inl f ↦ absurd (ground (arith, e, f, found))
        | inr (rest, f) ↦
            let end : rest ≡ terms = ground (arith, e, f, found) in
            subst (All HasValue) end (
              bare_loop-HasValue fuel run (words ++ word ∷ []) trimmed
                (All-append IsWord words (word ∷ []) all (is_word, tt)) f)
      ]
      | inr e ↦ elim (Option-cases (bare_loop fuel run [])) [
        | inl f ↦ absurd (ground (arith, e, f, found))
        | inr (rest, f) ↦
            let end : (flush words ++ bare_term word ∷ []) ++ rest ≡ terms =
              ground (arith, e, f, found) in
            subst (All HasValue) end (
              All-append HasValue (flush words ++ bare_term word ∷ []) rest
                (All-append HasValue (flush words) (bare_term word ∷ []) (flush-HasValue words all)
                  (plain-HasValue word e, tt))
                (bare_loop-HasValue fuel run [] trimmed tt f))
      ]
    ]

has_byte-IsWord : (x : ℕ) (b : Bytes) → has_byte x b ≡ true → IsWord b
unfolding index_byte
has_byte-IsWord x [] h = absurd cc
has_byte-IsWord x (c ∷ b) h = refl

module _ (lower : Bytes → Bytes) where
  token_terms-HasValue :
      (token : Bytes)
      → (terms : List Term) × (token_terms lower token ≡ some terms) × All HasValue terms
  unfolding token_terms bare_terms
  token_terms-HasValue token = elim (Bool-cases (phrased token || not (has_byte colon token))) [
    | inl e ↦
        let (terms, found) = bare_terms-total token in
        (
          terms,
          rw (e, token_terms) found,
          bare_loop-HasValue (suc (length token)) (trim_left token) [] (begins_with-trim_left token)
              tt found,
        )
    | inr e ↦ elim (Bool-cases (is_empty (key_of lower token) || is_empty (value_of lower token))) [
      | inl f ↦ (
        word_term token ∷ [],
        ground (arith, e, f),
        (has_byte-IsWord colon token (ground (arith, e)), tt),
      )
      | inr f ↦ (keyed_term lower token ∷ [], rw (e, f, token_terms) refl, (ground (arith, f), tt))
    ]
  ]

  all_terms-HasValue :
      (tokens : List Bytes) → (q : Query) × (all_terms lower tokens ≡ some q) × All HasValue q
  unfolding all_terms
  all_terms-HasValue [] = ([], refl, tt)
  all_terms-HasValue (token ∷ tokens) =
      let (terms, found, values) = token_terms-HasValue token in
      let (q, rest, others) = all_terms-HasValue tokens in
      (terms ++ q, ground (arith, found, rest), All-append HasValue terms q values others)

  -- Every text parses, whatever the reader typed: the loops of `Parse` end, and no term of the query is
  -- without a value.
  pub parse-HasValue : (raw : Bytes) → (q : Query) × (parse lower raw ≡ some q) × All HasValue q
  unfolding parse
  parse-HasValue raw =
      let (tokens, scanned) = scan_tokens-total (suc (length raw)) raw (omega arith) in
      let (q, found, values) = all_terms-HasValue tokens in
      (q, ap (of_tokens lower) scanned ∙ found, values)
