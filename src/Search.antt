-- ===== src/Search.antt =====
-- search/query.go: the query that a reader types, cut into tokens and parsed into terms.
pub mod Parse
pub mod Turns
pub mod Advance
pub mod Words
pub mod Terms
pub mod Appended
pub mod Buffered
pub mod Tests
use alborz.Prelude.{
  ℕ, zero, suc, ◌+◌, ◌-◌, Bool, true, false, not, ◌&&◌, ◌||◌, List, [], ◌∷◌, ◌++◌, Option, none,
  some, ◌==◌, if◌then◌else◌, length,
}

-- A text's bytes.
abbrev pub Bytes : Type 0
Bytes = List ℕ

abbrev pub space : ℕ
space = 32

abbrev pub quote : ℕ
quote = 34

abbrev pub colon : ℕ
colon = 58

abbrev pub dash : ℕ
dash = 45

-- Slices `b[:n]` and `b[n:]`.
unfoldable pub take : ℕ → Bytes → Bytes
take n [] = []
take zero (c ∷ b) = []
take (suc n) (c ∷ b) = c ∷ take n b

unfoldable pub drop : ℕ → Bytes → Bytes
drop n [] = []
drop zero (c ∷ b) = c ∷ b
drop (suc n) (c ∷ b) = drop n b

-- `bytes.IndexByte`.
abbrev after_first : Option ℕ → Option ℕ
after_first none = none
after_first (some i) = some (suc i)

unfoldable pub index_byte : ℕ → Bytes → Option ℕ
index_byte x [] = none
index_byte x (c ∷ b) = let rest = index_byte x b in if c == x then some 0 else after_first rest

abbrev pub has_byte : ℕ → Bytes → Bool
has_byte x b = elim (index_byte x b) [ none ↦ false | some i ↦ true ]

-- The spaces that a text begins with.
unfoldable pub spaces : Bytes → ℕ
spaces [] = 0
spaces (c ∷ b) = let rest = spaces b in if c == space then suc rest else 0

-- `bytes.TrimRight(b, " ")`.
abbrev keep_space : ℕ → Bytes → Bytes
keep_space c [] = if c == space then [] else c ∷ []
keep_space c (d ∷ b) = c ∷ d ∷ b

unfoldable pub trim_right : Bytes → Bytes
trim_right [] = []
trim_right (c ∷ b) = keep_space c (trim_right b)

-- `wordLen`.
unfoldable pub word_len : Bytes → ℕ
word_len [] = 0
word_len (c ∷ b) = let rest = word_len b in if c == space then 0 else suc rest

-- `phrased`.
abbrev pub phrased : Bytes → Bool
phrased [] = false
phrased (c ∷ []) = c == quote
phrased (c ∷ d ∷ b) = c == quote || (c == dash && d == quote)

abbrev pub or_zero : Option ℕ → ℕ
or_zero none = 0
or_zero (some i) = i

-- `bareLen`, past the quote at `open`.
abbrev pub phrase_len : Bytes → ℕ → ℕ
phrase_len b first = elim (index_byte quote (drop (first + 1) b)) [
  | none ↦ length b
  | some closing ↦ let end = first + closing + 2 in end + word_len (drop end b)
]

unfoldable pub bare_len : Bytes → ℕ
unfolding word_len index_byte drop
bare_len b = if not (phrased b) then word_len b else phrase_len b (or_zero (index_byte quote b))

-- The loop of `splitSearchTokens` that looks for the first word with a colon: `i` is where it stands,
-- `b` what is there, and the answer where that word begins, or that no word has one. `none` is that
-- the fuel ran out.
unfoldable pub find_term : ℕ → ℕ → Bytes → Option (Option ℕ)
unfolding bare_len spaces drop
find_term fuel i [] = some none
find_term zero i (c ∷ b) = none
find_term (suc fuel) i (c ∷ b) =
    let n = bare_len (c ∷ b) in
    let next = n + spaces (drop n (c ∷ b)) in
    let rest = find_term fuel (i + next) (drop next (c ∷ b)) in
    if not (phrased (c ∷ b)) && has_byte colon (take n (c ∷ b)) then some (some i) else rest

-- What `splitSearchTokens` returns: how far it went and no token, or with a token. `endless` is a run
-- of the loop that the fuel did not reach the end of.
pub data Split : Type 0 where
  asks : ℕ → Split
  gives : ℕ → Bytes → Split
  endless : Split

abbrev pub begins_with : ℕ → Bytes → Bool
begins_with x [] = false
begins_with x (c ∷ b) = c == x

-- The key and its value, which the rest begins with.
abbrev pub quoted_value : Bool → ℕ → ℕ → Bytes → ℕ → Bytes → Option ℕ → Split
quoted_value at_eof start end rest at value none =
    if at_eof then gives end (take (at + 1) rest ++ drop 1 value) else asks start
quoted_value at_eof start end rest at value (some closing) =
    gives (start + at + closing + 3) (take (at + 1) rest ++ take closing (drop 1 value))

abbrev pub plain_value : Bool → ℕ → Bytes → ℕ → Split
plain_value at_eof start rest word =
    if word == length rest && not at_eof then asks start else gives (start + word) (take word rest)

unfoldable pub split_keyed : Bool → ℕ → ℕ → Bytes → Split
unfolding index_byte take drop word_len
split_keyed at_eof start end rest =
    let at = or_zero (index_byte colon rest) in
    let value = drop (at + 1) rest in
    if begins_with quote value
    then quoted_value at_eof start end rest at value (index_byte quote (drop 1 value))
    else plain_value at_eof start rest (at + 1 + word_len value)

abbrev pub split_at : Bool → ℕ → ℕ → Bytes → Option (Option ℕ) → Split
split_at at_eof start end rest none = endless
split_at at_eof start end rest (some none) =
    if at_eof then gives end (trim_right rest) else asks start
split_at at_eof start end rest (some (some zero)) = split_keyed at_eof start end rest
split_at at_eof start end rest (some (some (suc term))) =
    gives (start + suc term) (trim_right (take (suc term) rest))

-- `splitSearchTokens`, with fuel for each byte.
unfoldable pub split_search_tokens : Bool → Bytes → Split
unfolding spaces drop find_term split_keyed trim_right take
split_search_tokens at_eof buf =
    let start = spaces buf in
    let rest = drop start buf in
    if start == length buf
    then asks start
    else split_at at_eof start (length buf) rest (find_term (length rest) 0 rest)

-- What bufio.Scanner gives of a text that it has whole: a token for each answer, until there is none.
abbrev with_token : Bytes → Option (List Bytes) → Option (List Bytes)
with_token token none = none
with_token token (some tokens) = some (token ∷ tokens)

unfoldable pub scan_tokens : ℕ → Bytes → Option (List Bytes)
unfolding split_search_tokens drop
scan_tokens zero buf = none
scan_tokens (suc fuel) buf = elim (split_search_tokens true buf) [
  | endless ↦ none
  | asks n ↦ some []
  | gives n token ↦ with_token token (scan_tokens fuel (drop n buf))
]
