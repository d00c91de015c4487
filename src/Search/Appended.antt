-- ===== src/Search/Appended.antt =====
-- What search/query.go measures in a part of the text, and in the part with more after it.
use alborz.Prelude.{
  ℕ, zero, suc, ◌+◌, ◌≤◌, ◌<◌, Bool, true, false, not, ◌&&◌, [], ◌∷◌, ◌++◌, some, ◌==◌, length, ◌≡◌,
  inl, inr, refl, ap, ◌∙◌, arith, Option-cases, Bool-cases,
}
use alborz.Search.{
  Bytes, space, quote, colon, take, drop, index_byte, has_byte, spaces, word_len, phrased, bare_len,
  phrase_len, find_term,
}
use alborz.Search.Turns.{length-drop, next_word}
use alborz.Search.Advance.{bare_len-bound}

pub take-append : (n : ℕ) (a b : Bytes) → n ≤ length a → take n (a ++ b) ≡ take n a
unfolding take
take-append zero [] [] h = refl
take-append zero [] (d ∷ b) h = refl
take-append (suc n) [] b h = absurd (omega (arith, h))
take-append zero (c ∷ a) b h = refl
take-append (suc n) (c ∷ a) b h = ap (λ x. c ∷ x) (take-append n a b (omega (arith, h)))

pub drop-append : (n : ℕ) (a b : Bytes) → n ≤ length a → drop n (a ++ b) ≡ drop n a ++ b
unfolding drop
drop-append zero [] [] h = refl
drop-append zero [] (d ∷ b) h = refl
drop-append (suc n) [] b h = absurd (omega (arith, h))
drop-append zero (c ∷ a) b h = refl
drop-append (suc n) (c ∷ a) b h = drop-append n a b (omega (arith, h))

pub spaces-append : (a b : Bytes) → spaces a < length a → spaces (a ++ b) ≡ spaces a
unfolding spaces
spaces-append [] b h = absurd (omega (arith, h))
spaces-append (c ∷ a) b h = elim (Bool-cases (c == space)) [
  | inl e ↦ ground (arith, e, spaces-append a b (ground (arith, e, h)))
  | inr e ↦ ground (arith, e)
]

pub word_len-append : (a b : Bytes) → word_len a < length a → word_len (a ++ b) ≡ word_len a
unfolding word_len
word_len-append [] b h = absurd (omega (arith, h))
word_len-append (c ∷ a) b h = elim (Bool-cases (c == space)) [
  | inl e ↦ ground (arith, e)
  | inr e ↦ ground (arith, e, word_len-append a b (ground (arith, e, h)))
]

pub index_byte-append :
    (x : ℕ) (a b : Bytes) {i : ℕ} → index_byte x a ≡ some i → index_byte x (a ++ b) ≡ some i
unfolding index_byte
index_byte-append x [] b h = absurd cc
index_byte-append x (c ∷ a) b {i} h = elim (Option-cases (index_byte x a)) [
  | inl e ↦ ground (arith, e, h)
  | inr (j, e) ↦ ground (arith, e, h, index_byte-append x a b e)
]

phrased-append : (a b : Bytes) → bare_len a < length a → phrased (a ++ b) ≡ phrased a
unfolding bare_len word_len index_byte drop
phrased-append [] b h = absurd (omega (arith, h))
phrased-append (c ∷ []) [] h = refl
phrased-append (c ∷ []) (d ∷ b) h = ground (arith, h)
phrased-append (c ∷ d ∷ a) b h = refl

phrase_len-append :
    (a b : Bytes) (first : ℕ)
    → first < length a
    → phrase_len a first < length a
    → phrase_len (a ++ b) first ≡ phrase_len a first
phrase_len-append a b first l h = elim (Option-cases (index_byte quote (drop (first + 1) a))) [
  | inl e ↦ absurd (ground (arith, e, h))
  | inr (closing, e) ↦
      let end = first + closing + 2 in
      let short : end + word_len (drop end a) < length a = ground (arith, e, h) in
      let found : index_byte quote (drop (first + 1) (a ++ b)) ≡ some closing =
        ap (index_byte quote) (drop-append (first + 1) a b (omega (arith, l)))
        ∙ index_byte-append quote (drop (first + 1) a) b e in
      let same : word_len (drop end (a ++ b)) ≡ word_len (drop end a) =
        ap word_len (drop-append end a b (omega (arith, short)))
        ∙ word_len-append (drop end a) b (omega (arith, short, length-drop end a)) in
      ground (arith, e, found, same)
]

phrased-quote :
    (b : Bytes) → phrased b ≡ true → (i : ℕ) × (index_byte quote b ≡ some i) × (i < length b)
unfolding index_byte
phrased-quote [] h = absurd cc
phrased-quote (c ∷ []) h = (0, ground (arith, h), omega arith)
phrased-quote (c ∷ d ∷ b) h = elim (Bool-cases (c == quote)) [
  | inl e ↦ (0, ground (arith, e), omega arith)
  | inr e ↦ (1, ground (arith, e, h), omega arith)
]

bare_len-append : (a b : Bytes) → bare_len a < length a → bare_len (a ++ b) ≡ bare_len a
unfolding bare_len
bare_len-append a b h =
    let same = phrased-append a b h in
    elim (Bool-cases (phrased a)) [
      | inr e ↦ ground (arith, same, e, word_len-append a b (ground (arith, e, h)))
      | inl e ↦
          let (first, found, within) = phrased-quote a e in
          let short : phrase_len a first < length a = ground (arith, e, found, h) in
          let there = index_byte-append quote a b found in
          ground (arith, same, e, found, there, phrase_len-append a b first within short)
    ]

word_len-grows : (a b : Bytes) → word_len a ≤ word_len (a ++ b)
unfolding word_len
word_len-grows [] b = omega arith
word_len-grows (c ∷ a) b = ground (arith, word_len-grows a b)

has_byte-take :
    (x n m : ℕ) (a b : Bytes)
    → n ≤ m
    → has_byte x (take n a) ≡ true
    → has_byte x (take m (a ++ b)) ≡ true
unfolding index_byte take
has_byte-take x zero m [] b h f = absurd cc
has_byte-take x (suc n) m [] b h f = absurd cc
has_byte-take x zero m (c ∷ a) b h f = absurd cc
has_byte-take x (suc n) zero (c ∷ a) b h f = absurd (omega (arith, h))
has_byte-take x (suc n) (suc m) (c ∷ a) b h f = elim (Bool-cases (c == x)) [
  | inl e ↦ ground (arith, e)
  | inr e ↦
      let found : has_byte x (take n a) ≡ true =
        ground (arith, e, f, Option-cases (index_byte x (take n a))) in
      let later = has_byte-take x n m a b (omega (arith, h)) found in
      ground (arith, e, later, Option-cases (index_byte x (take m (a ++ b))))
]

phrased-word :
    (n : ℕ) (a b : Bytes)
    → phrased a ≡ false
    → has_byte colon (take n a) ≡ true
    → phrased (a ++ b) ≡ false
unfolding index_byte take
phrased-word n [] b h f = absurd cc
phrased-word n (c ∷ d ∷ a) b h f = h
phrased-word zero (c ∷ []) b h f = absurd cc
phrased-word (suc n) (c ∷ []) [] h f = h
phrased-word (suc n) (c ∷ []) (d ∷ b) h f = ground (arith, h, f)

-- The loop of the split finds a word in a part of the text.
abbrev pub is_keyed : Bytes → Bool
is_keyed b = not (phrased b) && has_byte colon (take (bare_len b) b)

is_keyed-append : (a b : Bytes) → is_keyed a ≡ true → is_keyed (a ++ b) ≡ true
unfolding bare_len
is_keyed-append a b h =
    let free : phrased a ≡ false = ground (arith, h) in
    let has : has_byte colon (take (word_len a) a) ≡ true = ground (arith, h, free) in
    let still = phrased-word (word_len a) a b free has in
    let later = has_byte-take colon (word_len a) (word_len (a ++ b)) a b (word_len-grows a b) has in
    ground (arith, still, later)

find_term-nonempty :
    (fuel i : ℕ) (b : Bytes) {t : ℕ} → find_term fuel i b ≡ some (some t) → 0 < length b
unfolding find_term
find_term-nonempty fuel i [] h = absurd cc
find_term-nonempty fuel i (c ∷ b) h = omega arith

next_word-append : (a b : Bytes) → next_word a < length a → next_word (a ++ b) ≡ next_word a
next_word-append a b h =
    let bare = bare_len-append a b (omega (arith, h)) in
    let dropped = drop-append (bare_len a) a b (bare_len-bound a) in
    let same =
      spaces-append (drop (bare_len a) a) b (omega (arith, h, length-drop (bare_len a) a)) in
    ap (λ n. n + spaces (drop n (a ++ b))) bare
    ∙ ap (λ x. bare_len a + spaces x) dropped
    ∙ ap (λ n. bare_len a + n) same

pub find_term-append :
    (fuel i : ℕ) (a b : Bytes) {t : ℕ}
    → find_term fuel i a ≡ some (some t)
    → find_term fuel i (a ++ b) ≡ some (some t)
unfolding find_term
find_term-append fuel i [] b h = absurd cc
find_term-append zero i (c ∷ a) b h = absurd cc
find_term-append (suc fuel) i (c ∷ a) b {t} h = elim (Bool-cases (is_keyed (c ∷ a))) [
  | inl e ↦ let still = is_keyed-append (c ∷ a) b e in ground (arith, e, still, h)
  | inr e ↦
      let n = next_word (c ∷ a) in
      let later : find_term fuel (i + n) (drop n (c ∷ a)) ≡ some (some t) = ground (arith, e, h) in
      let short : n < length (c ∷ a) =
        omega
          (arith, find_term-nonempty fuel (i + n) (drop n (c ∷ a)) later, length-drop n (c ∷ a)) in
      let same = next_word-append (c ∷ a) b short in
      let bare = bare_len-append (c ∷ a) b (omega (arith, short)) in
      let not_keyed : is_keyed ((c ∷ a) ++ b) ≡ false =
        ap (λ m. not (phrased ((c ∷ a) ++ b)) && has_byte colon (take m ((c ∷ a) ++ b))) bare
        ∙ ap (λ x. not (phrased ((c ∷ a) ++ b)) && has_byte colon x)
            (take-append (bare_len (c ∷ a)) (c ∷ a) b (bare_len-bound (c ∷ a)))
        ∙ ap (λ x. not x && has_byte colon (take (bare_len (c ∷ a)) (c ∷ a)))
            (phrased-append (c ∷ a) b (omega (arith, short)))
        ∙ e in
      let rest = find_term-append fuel (i + n) (drop n (c ∷ a)) b later in
      let moved : find_term fuel (i + next_word ((c ∷ a) ++ b))
            (drop (next_word ((c ∷ a) ++ b)) ((c ∷ a) ++ b))
          ≡ some (some t) =
        ap (λ m. find_term fuel (i + m) (drop m ((c ∷ a) ++ b))) same
        ∙ ap (find_term fuel (i + n)) (drop-append n (c ∷ a) b (omega (arith, short)))
        ∙ rest in
      ground (arith, not_keyed, moved)
]
