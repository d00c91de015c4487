-- ===== src/Search/Advance.antt =====
-- Every token takes some of the text, and no more than there is.
use alborz.Prelude.{
  ℕ, zero, suc, ◌+◌, ◌-◌, ◌≤◌, ◌<◌, Bool, true, false, not, ◌&&◌, List, [], ◌∷◌, Option, none, some,
  ◌==◌, length, ◌≡◌, ◌⊎◌, inl, inr, refl, ap, ◌∙◌, sym, subst, arith, Option-cases, Bool-cases,
}
use alborz.Search.{
  Bytes, quote, colon, take, drop, index_byte, has_byte, spaces, word_len, phrased, or_zero,
  bare_len, find_term, Split, asks, gives, endless, space, split_keyed, split_search_tokens,
  scan_tokens, phrase_len, begins_with, quoted_value, plain_value, split_at,
}
use alborz.Search.Turns.{length-drop, next_word, begins_with-trim_left, find_term-total}

spaces-bound : (b : Bytes) → spaces b ≤ length b
unfolding spaces
spaces-bound [] = omega arith
spaces-bound (c ∷ b) = ground (arith, spaces-bound b)

pub word_len-bound : (b : Bytes) → word_len b ≤ length b
unfolding word_len
word_len-bound [] = omega arith
word_len-bound (c ∷ b) = ground (arith, word_len-bound b)

pub index_byte-bound : (x : ℕ) (b : Bytes) {i : ℕ} → index_byte x b ≡ some i → i < length b
unfolding index_byte
index_byte-bound x [] h = absurd cc
index_byte-bound x (c ∷ b) {i} h = elim (Option-cases (index_byte x b)) [
  | inl e ↦ ground (arith, e, h)
  | inr (j, e) ↦ ground (arith, e, h, index_byte-bound x b e)
]

phrase_len-bound : (b : Bytes) (first : ℕ) → first < length b → phrase_len b first ≤ length b
phrase_len-bound b first h = elim (Option-cases (index_byte quote (drop (first + 1) b))) [
  | inl e ↦ ground (arith, e)
  | inr (closing, e) ↦ ground (
    arith,
    e,
    h,
    index_byte-bound quote (drop (first + 1) b) e,
    length-drop (first + 1) b,
    word_len-bound (drop (first + closing + 2) b),
    length-drop (first + closing + 2) b,
  )
]

or_zero-bound : (x c : ℕ) (b : Bytes) → or_zero (index_byte x (c ∷ b)) < length (c ∷ b)
or_zero-bound x c b = elim (Option-cases (index_byte x (c ∷ b))) [
  | inl e ↦ ground (arith, e)
  | inr (i, e) ↦ ground (arith, e, index_byte-bound x (c ∷ b) e)
]

pub bare_len-bound : (b : Bytes) → bare_len b ≤ length b
unfolding bare_len
bare_len-bound [] = ground (arith, word_len-bound [])
bare_len-bound (c ∷ b) = ground (
  arith,
  word_len-bound (c ∷ b),
  phrase_len-bound (c ∷ b) (or_zero (index_byte quote (c ∷ b))) (or_zero-bound quote c b),
)

next_word-bound : (b : Bytes) → next_word b ≤ length b
next_word-bound b =
    omega (arith, bare_len-bound b, spaces-bound (drop (bare_len b) b), length-drop (bare_len b) b)

pub find_term-bound :
    (fuel i : ℕ) (b : Bytes) {t : ℕ} → find_term fuel i b ≡ some (some t) → t < i + length b
unfolding find_term
find_term-bound fuel i [] h = absurd cc
find_term-bound zero i (c ∷ b) h = absurd cc
find_term-bound (suc fuel) i (c ∷ b) {t} h =
    let here = not (phrased (c ∷ b)) && has_byte colon (take (bare_len (c ∷ b)) (c ∷ b)) in
    let n = next_word (c ∷ b) in
    elim (Bool-cases here) [
      | inl e ↦ let at : i ≡ t = ground (arith, e, h) in omega (arith, at)
      | inr e ↦
          let later =
            find_term-bound fuel (i + n) (drop n (c ∷ b)) {t = t} (ground (arith, e, h)) in
          omega (arith, later, next_word-bound (c ∷ b), length-drop n (c ∷ b))
    ]

-- A token takes some of the text, and no more than there is from `start` on.
abbrev pub IsWithin : ℕ → ℕ → Split → Type 0
IsWithin start end (asks n) = n ≡ start
IsWithin start end (gives n token) = 0 < n × n ≤ end
IsWithin start end endless = ⊥

quoted_value-IsWithin :
    (at_eof : Bool) (start : ℕ) (rest : Bytes) (at : ℕ) (value : Bytes)
    → at < length rest
    → length value ≡ length rest - (at + 1)
    → IsWithin start (start + length rest) (
        quoted_value at_eof start
          (start + length rest)
          rest
          at
          value
          (index_byte quote (drop 1 value)))
quoted_value-IsWithin at_eof start rest at value h l =
    elim (Option-cases (index_byte quote (drop 1 value))) [
      | inl e ↦ elim (Bool-cases at_eof) [
        | inl ends ↦ rw (e, ends) (omega (arith, h), omega arith)
        | inr more ↦ rw (e, more) refl
      ]
      | inr (closing, e) ↦ rw e (
        omega arith,
        omega (arith, h, l, index_byte-bound quote (drop 1 value) e, length-drop 1 value),
      )
    ]

plain_value-IsWithin :
    (at_eof : Bool) (start : ℕ) (rest : Bytes) (word : ℕ)
    → 0 < word
    → word ≤ length rest
    → IsWithin start (start + length rest) (plain_value at_eof start rest word)
plain_value-IsWithin at_eof start rest word h l =
    elim (Bool-cases (word == length rest && not at_eof)) [
      | inl e ↦ rw e refl
      | inr e ↦ rw e (omega (arith, h), omega (arith, l))
    ]

split_keyed-IsWithin :
    (at_eof : Bool) (start : ℕ) (c : ℕ) (rest : Bytes)
    → IsWithin start
        (start + length (c ∷ rest))
        (split_keyed at_eof start (start + length (c ∷ rest)) (c ∷ rest))
unfolding split_keyed
split_keyed-IsWithin at_eof start c rest = elim (Bool-cases (begins_with quote value)) [
  | inl e ↦
      rw (e, split_keyed)
        (quoted_value-IsWithin at_eof start (c ∷ rest) at value (or_zero-bound colon c rest)
          (length-drop (at + 1) (c ∷ rest)))
  | inr e ↦
      rw (e, split_keyed)
        (plain_value-IsWithin at_eof start (c ∷ rest) (at + 1 + word_len value) (omega arith) (
          omega (
            arith,
            word_len-bound value,
            length-drop (at + 1) (c ∷ rest),
            or_zero-bound colon c rest,
          )))
]
  where
    at : ℕ
    at = or_zero (index_byte colon (c ∷ rest))

    value : Bytes
    value = drop (at + 1) (c ∷ rest)

split_at-IsWithin :
    (at_eof : Bool) (start : ℕ) (c : ℕ) (rest : Bytes) (term : Option ℕ)
    → ((t : ℕ) → term ≡ some t → t < length (c ∷ rest))
    → IsWithin start
        (start + length (c ∷ rest))
        (split_at at_eof start (start + length (c ∷ rest)) (c ∷ rest) (some term))
split_at-IsWithin true start c rest none h = (omega arith, omega arith)
split_at-IsWithin false start c rest none h = refl
split_at-IsWithin at_eof start c rest (some zero) h = split_keyed-IsWithin at_eof start c rest
split_at-IsWithin at_eof start c rest (some (suc t)) h =
    (omega arith, omega (arith, h (suc t) refl))

-- Where the text goes on after its spaces.
pub tail_of :
    (buf : Bytes)
    → (spaces buf == length buf) ≡ false
    → (c : ℕ) × (rest : Bytes) × (drop (spaces buf) buf ≡ c ∷ rest)
      × (length buf ≡ spaces buf + length (c ∷ rest))
tail_of buf h = first (drop (spaces buf) buf) refl
  where
    first :
        (b : Bytes)
        → drop (spaces buf) buf ≡ b
        → (c : ℕ) × (rest : Bytes) × (drop (spaces buf) buf ≡ c ∷ rest)
          × (length buf ≡ spaces buf + length (c ∷ rest))
    first [] e =
        let l : length buf - spaces buf ≡ 0 = sym (length-drop (spaces buf) buf) ∙ ap length e in
        absurd (ground (arith, l, h, spaces-bound buf))
    first (c ∷ rest) e =
        let l : length buf - spaces buf ≡ length (c ∷ rest) =
          sym (length-drop (spaces buf) buf) ∙ ap length e in
        (c, rest, e, omega (arith, l, spaces-bound buf))

-- Every path of the split ends: it either asks for more, at the first byte that is no space, or gives a
-- token and advances, by at least one byte and by no more than the text has, whether or not the
-- text is all there is.
pub split-IsWithin :
    (at_eof : Bool) (buf : Bytes)
    → IsWithin (spaces buf) (length buf) (split_search_tokens at_eof buf)
unfolding split_search_tokens
split-IsWithin at_eof buf = elim (Bool-cases (spaces buf == length buf)) [
  | inl blank ↦ rw (blank, split_search_tokens) refl
  | inr e ↦
      let (c, rest, there, len) = tail_of buf e in
      let begins : begins_with space (c ∷ rest) ≡ false =
        ap (begins_with space) (sym there) ∙ begins_with-trim_left buf in
      let (term, ends) = find_term-total (length (c ∷ rest)) 0 (c ∷ rest) begins (omega arith) in
      rw (e, there, len, split_search_tokens, ends)
        (split_at-IsWithin at_eof (spaces buf) c rest term (λ t h.
          omega
            (arith, find_term-bound (length (c ∷ rest)) 0 (c ∷ rest) {t = t} (ends ∙ ap some h))))
]

Split-cases :
    (start end : ℕ) (s : Split)
    → IsWithin start end s
    → ((n : ℕ) × (s ≡ asks n)) ⊎ ((n : ℕ) × (token : Bytes) × (s ≡ gives n token))
Split-cases start end (asks n) w = inl (n, refl)
Split-cases start end (gives n token) w = inr (n, token, refl)
Split-cases start end endless w = absurd w

-- What a split that gives a token says of it.
gives-IsWithin :
    (at_eof : Bool) (buf : Bytes) {n : ℕ} {token : Bytes}
    → split_search_tokens at_eof buf ≡ gives n token
    → 0 < n × n ≤ length buf
gives-IsWithin at_eof buf h =
    subst (IsWithin (spaces buf) (length buf)) h (split-IsWithin at_eof buf)

-- The tokens of every text are found, one call of the split for each: as much fuel as the text has
-- bytes, and one more, is enough.
pub scan_tokens-total :
    (fuel : ℕ) (buf : Bytes)
    → length buf < fuel
    → (tokens : List Bytes) × (scan_tokens fuel buf ≡ some tokens)
unfolding scan_tokens
scan_tokens-total zero buf h = absurd (omega (arith, h))
scan_tokens-total (suc fuel) buf h =
    elim (Split-cases (spaces buf) (length buf) (split_search_tokens true buf)
      (split-IsWithin true buf)) [
        | inl (n, e) ↦ ([], ground (arith, e))
        | inr (n, token, e) ↦
            let (some_read, within) = gives-IsWithin true buf e in
            let (tokens, rest) =
              scan_tokens-total fuel (drop n buf)
                (omega (arith, h, some_read, within, length-drop n buf)) in
            (token ∷ tokens, ground (arith, e, rest))
      ]

-- At the end of the text every path gives a token.
split_at-gives :
    (start end : ℕ) (rest : Bytes) (term : Option (Option ℕ)) {n : ℕ}
    → split_at true start end rest term ≡ asks n
    → suc n ≡ n
unfolding split_keyed
split_at-gives start end rest none h = absurd cc
split_at-gives start end rest (some none) h = absurd cc
split_at-gives start end rest (some (some (suc t))) h = absurd cc
split_at-gives start end rest (some (some zero)) h =
    let at = or_zero (index_byte colon rest) in
    let value = drop (at + 1) rest in
    elim (Bool-cases (begins_with quote value)) [
      | inl e ↦ elim (Option-cases (index_byte quote (drop 1 value))) [
        | inl f ↦ absurd (ground (arith, e, f, h))
        | inr (closing, f) ↦ absurd (ground (arith, e, f, h))
      ]
      | inr e ↦ elim (Bool-cases (at + 1 + word_len value == length rest)) [
        | inl f ↦ absurd (ground (arith, e, f, h))
        | inr f ↦ absurd (ground (arith, e, f, h))
      ]
    ]

-- At the end of the text the split asks for more only where nothing but spaces is left.
pub split-asks :
    (buf : Bytes) {n : ℕ} → split_search_tokens true buf ≡ asks n → spaces buf ≡ length buf
unfolding split_search_tokens
split-asks buf {n} h = elim (Bool-cases (spaces buf == length buf)) [
  | inl blank ↦ ground (arith, blank)
  | inr e ↦
      let never =
        split_at-gives (spaces buf) (length buf) (drop (spaces buf) buf)
          (find_term (length (drop (spaces buf) buf)) 0 (drop (spaces buf) buf)) {n = n}
          (ground (arith, e, h)) in
      absurd (omega (arith, never))
]
