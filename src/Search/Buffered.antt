-- ===== src/Search/Buffered.antt =====
-- What splitSearchTokens decides on a part of the text it decides on the whole.
use alborz.Prelude.{
  ℕ, zero, suc, ◌+◌, ◌-◌, ◌≤◌, ◌<◌, Bool, true, false, [], ◌∷◌, ◌++◌, Option, none, some, ◌==◌,
  length, length-append, ◌≡◌, inl, inr, refl, ap, ◌∙◌, sym, arith, Option-cases, Bool-cases,
}
use alborz.Search.{
  Bytes, quote, colon, take, drop, index_byte, has_byte, spaces, word_len, bare_len, find_term,
  gives, split_keyed, split_at, trim_right, split_search_tokens,
}
use alborz.Search.Turns.{length-drop, next_word}
use alborz.Search.Advance.{index_byte-bound, word_len-bound, find_term-bound, tail_of}
use alborz.Search.Appended.{
  take-append, drop-append, spaces-append, word_len-append, index_byte-append, is_keyed,
  find_term-append,
}

below : (n m : ℕ) → n < m → (n == m) ≡ false
below n m h = ground (arith, h)

-- More fuel finds the word that less found.
find_term-more :
    (fuel more i : ℕ) (b : Bytes) {t : ℕ}
    → fuel ≤ more
    → find_term fuel i b ≡ some (some t)
    → find_term more i b ≡ some (some t)
unfolding find_term
find_term-more fuel more i [] l h = absurd cc
find_term-more zero more i (c ∷ b) l h = absurd cc
find_term-more (suc fuel) zero i (c ∷ b) l h = absurd (omega (arith, l))
find_term-more (suc fuel) (suc more) i (c ∷ b) {t} l h = elim (Bool-cases (is_keyed (c ∷ b))) [
  | inl e ↦ ground (arith, e, h)
  | inr e ↦
      let n = next_word (c ∷ b) in
      let later : find_term fuel (i + n) (drop n (c ∷ b)) ≡ some (some t) = ground (arith, e, h) in
      let rest = find_term-more fuel more (i + n) (drop n (c ∷ b)) (omega (arith, l)) later in
      ground (arith, e, rest)
]

has_byte-of_take : (x n : ℕ) (b : Bytes) → has_byte x (take n b) ≡ true → has_byte x b ≡ true
unfolding index_byte take
has_byte-of_take x n [] h = absurd cc
has_byte-of_take x zero (c ∷ b) h = absurd cc
has_byte-of_take x (suc n) (c ∷ b) h = elim (Bool-cases (c == x)) [
  | inl e ↦ ground (arith, e)
  | inr e ↦
      let found : has_byte x (take n b) ≡ true =
        ground (arith, e, h, Option-cases (index_byte x (take n b))) in
      ground (arith, e, has_byte-of_take x n b found, Option-cases (index_byte x b))
]

has_byte-of_drop : (x n : ℕ) (b : Bytes) → has_byte x (drop n b) ≡ true → has_byte x b ≡ true
unfolding index_byte drop
has_byte-of_drop x n [] h = absurd cc
has_byte-of_drop x zero (c ∷ b) h = h
has_byte-of_drop x (suc n) (c ∷ b) h =
    ground (arith, has_byte-of_drop x n b h, Option-cases (index_byte x b))

find_term-has_byte :
    (fuel i : ℕ) (b : Bytes) {t : ℕ} → find_term fuel i b ≡ some (some t) → has_byte colon b ≡ true
unfolding find_term
find_term-has_byte fuel i [] h = absurd cc
find_term-has_byte zero i (c ∷ b) h = absurd cc
find_term-has_byte (suc fuel) i (c ∷ b) {t} h = elim (Bool-cases (is_keyed (c ∷ b))) [
  | inl e ↦ has_byte-of_take colon (bare_len (c ∷ b)) (c ∷ b) (ground (arith, e))
  | inr e ↦
      let n = next_word (c ∷ b) in
      has_byte-of_drop colon n (c ∷ b)
        (find_term-has_byte fuel (i + n) (drop n (c ∷ b)) {t = t} (ground (arith, e, h)))
]

-- A key and its value, where the value ends in the part.
value-append :
    (at_eof : Bool) (start end whole : ℕ) (rest more : Bytes) (at : ℕ) {n : ℕ} {token : Bytes}
    → index_byte colon rest ≡ some at
    → split_keyed false start end rest ≡ gives n token
    → split_keyed at_eof start whole (rest ++ more) ≡ gives n token
unfolding split_keyed
value-append at_eof start end whole rest more at {n} {token} found h =
    of_value (drop (at + 1) rest) refl
  where
    within : at < length rest
    within = index_byte-bound colon rest found

    moved : drop (at + 1) (rest ++ more) ≡ drop (at + 1) rest ++ more
    moved = drop-append (at + 1) rest more (omega (arith, within))

    there : index_byte colon (rest ++ more) ≡ some at
    there = index_byte-append colon rest more found

    key : take (at + 1) (rest ++ more) ≡ take (at + 1) rest
    key = take-append (at + 1) rest more (omega (arith, within))

    whole_value :
        (v : ℕ) (value : Bytes)
        → drop (at + 1) rest ≡ v ∷ value
        → drop (at + 1) (rest ++ more) ≡ v ∷ (value ++ more)
    whole_value v value e = moved ∙ ap (λ x. x ++ more) e

    of_value :
        (value : Bytes)
        → drop (at + 1) rest ≡ value
        → split_keyed at_eof start whole (rest ++ more) ≡ gives n token
    of_value [] e =
        let l : length rest - (at + 1) ≡ 0 = sym (length-drop (at + 1) rest) ∙ ap length e in
        let ends : at + 1 ≡ length rest = omega (arith, l, within) in
        absurd (ground (arith, found, e, ends, h))
    of_value (v ∷ value) e = elim (Bool-cases (v == quote)) [
      | inl q ↦
          let inner = drop 1 (v ∷ value) in
          let inner_moved : drop 1 (v ∷ (value ++ more)) ≡ inner ++ more =
            drop-append 1 (v ∷ value) more (omega arith) in
          elim (Option-cases (index_byte quote inner)) [
            | inl f ↦ absurd (ground (arith, found, e, q, f, h))
            | inr (closing, f) ↦
                let still = index_byte-append quote inner more f in
                let same =
                  take-append closing inner more (omega (arith, index_byte-bound quote inner f)) in
                ground (
                  arith,
                  found,
                  there,
                  e,
                  q,
                  f,
                  h,
                  still,
                  same,
                  key,
                  whole_value v value e,
                  inner_moved,
                )
          ]
      | inr q ↦
          let l : length rest - (at + 1) ≡ suc (length value) =
            sym (length-drop (at + 1) rest) ∙ ap length e in
          elim (Bool-cases (at + 1 + word_len (v ∷ value) == length rest)) [
            | inl f ↦ absurd (ground (arith, found, e, q, f, h))
            | inr f ↦
                let short : word_len (v ∷ value) < length (v ∷ value) =
                  ground (arith, f, l, within, word_len-bound (v ∷ value)) in
                let same = word_len-append (v ∷ value) more short in
                let word = at + 1 + word_len (v ∷ value) in
                let longer = length-append rest more in
                let inside : word < length rest = omega (arith, short, l, within) in
                let taken = take-append word rest more (omega (arith, inside)) in
                let before : gives (start + word) (take word rest) ≡ gives n token =
                  ground (arith, found, e, q, f, h) in
                let open_end : (word == length (rest ++ more)) ≡ false =
                  ground (arith, longer, inside) in
                ground (arith, there, whole_value v value e, q, same, taken, open_end, before)
          ]
    ]

split_at-append :
    (at_eof : Bool) (start end whole : ℕ) (rest more : Bytes) (term : Option ℕ) {n : ℕ}
    {token : Bytes}
    → ((t : ℕ) → term ≡ some t → t < length rest)
    → ((t : ℕ) → term ≡ some t → has_byte colon rest ≡ true)
    → split_at false start end rest (some term) ≡ gives n token
    → split_at at_eof start whole (rest ++ more) (some term) ≡ gives n token
split_at-append at_eof start end whole rest more none within has h = absurd cc
split_at-append at_eof start end whole rest more (some zero) within has h =
    elim (Option-cases (index_byte colon rest)) [
      | inl e ↦ let there = has 0 refl in absurd (ground (arith, e, there))
      | inr (at, e) ↦ value-append at_eof start end whole rest more at e h
    ]
split_at-append at_eof start end whole rest more (some (suc t)) within has h =
    ap (λ x. gives (start + suc t) (trim_right x))
      (take-append (suc t) rest more (omega (arith, within (suc t) refl)))
    ∙ h

-- A token that the split finds while more may come it finds in the whole, wherever the text was cut: what
-- it gives for a part of the text, it gives for the part with whatever comes after it, at the end of the
-- text or not.
pub split-append :
    (at_eof : Bool) (part more : Bytes) {n : ℕ} {token : Bytes}
    → split_search_tokens false part ≡ gives n token
    → split_search_tokens at_eof (part ++ more) ≡ gives n token
unfolding split_search_tokens
split-append at_eof part more {n} {token} h = elim (Bool-cases (spaces part == length part)) [
  | inl blank ↦ absurd (ground (arith, blank, h))
  | inr e ↦
      let rest = drop (spaces part) part in
      let (c, tail, there, len) = tail_of part e in
      let short : spaces part < length part = omega (arith, len) in
      let same = spaces-append part more short in
      let whole : drop (spaces part) (part ++ more) ≡ rest ++ more =
        drop-append (spaces part) part more (omega (arith, short)) in
      let longer = length-append part more in
      let not_blank : (spaces part == length (part ++ more)) ≡ false =
        below (spaces part) (length (part ++ more)) (omega (arith, longer, short)) in
      let before : split_at false (spaces part) (length part) rest (find_term (length rest) 0 rest)
          ≡ gives n token =
        ground (arith, e, h) in
      elim (Option-cases (find_term (length rest) 0 rest)) [
        | inl f ↦ absurd (ground (arith, f, before))
        | inr (none, f) ↦ absurd (ground (arith, f, before))
        | inr (some t, f) ↦
            let found : find_term (length (rest ++ more)) 0 (rest ++ more) ≡ some (some t) =
              find_term-more (length rest) (length (rest ++ more)) 0 (rest ++ more)
                (omega (arith, length-append rest more))
                (find_term-append (length rest) 0 rest more f) in
            let done =
              split_at-append at_eof (spaces part) (length part) (length (part ++ more)) rest more
                (some t) {n = n} {token = token}
                (λ u g. omega (arith, find_term-bound (length rest) 0 rest {t = u} (f ∙ ap some g)))
                (λ u g. find_term-has_byte (length rest) 0 rest f)
                (ap (split_at false (spaces part) (length part) rest) (sym f) ∙ before) in
            ground (arith, same, whole, not_blank, found, done)
      ]
]
