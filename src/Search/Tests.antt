-- ===== src/Search/Tests.antt =====
-- A query with a word, a key with a value, a key whose value is quoted, and a phrase that is negated.
use alborz.Prelude.{true, false, [], ◌∷◌, ◌++◌, All, some, length, ◌≡◌, refl}
use alborz.Search.{
  Bytes, take, drop, index_byte, spaces, word_len, bare_len, find_term, trim_right, gives,
  split_keyed, split_search_tokens, scan_tokens,
}
use alborz.Search.Buffered.{split-append}
use alborz.Search.Advance.{IsWithin, split-IsWithin}
use alborz.Search.Parse.{
  Query, remove_byte, join, bare_loop, bare_terms, token_terms, all_terms, parse,
}
use alborz.Search.Terms.{HasValue, parse-HasValue}

-- `w k:v k:"a b" -"a b"`
abbrev raw : Bytes
raw =
    119 ∷ 32 ∷ 107 ∷ 58 ∷ 118 ∷ 32 ∷ 107 ∷ 58 ∷ 34 ∷ 97 ∷ 32 ∷ 98 ∷ 34 ∷ 32 ∷ 45 ∷ 34 ∷ 97 ∷ 32 ∷ 98
    ∷ 34 ∷ []

abbrev the_query : Query
the_query =
    record { key = []; value = 119 ∷ []; negated = false; quoted = false }
    ∷ record { key = 107 ∷ []; value = 118 ∷ []; negated = false; quoted = false }
    ∷ record { key = 107 ∷ []; value = 97 ∷ 32 ∷ 98 ∷ []; negated = false; quoted = false }
    ∷ record { key = []; value = 97 ∷ 32 ∷ 98 ∷ []; negated = true; quoted = true }
    ∷ []

parse_query : parse (λ key. key) raw ≡ some the_query
unfolding parse scan_tokens all_terms token_terms bare_terms bare_loop remove_byte join
    split_search_tokens split_keyed find_term bare_len word_len trim_right spaces index_byte take
    drop
parse_query = refl

parse-HasValue_example : (q : Query) × (parse (λ key. key) raw ≡ some q) × All HasValue q
parse-HasValue_example = parse-HasValue (λ key. key) raw

split-IsWithin_example : IsWithin (spaces raw) (length raw) (split_search_tokens false raw)
split-IsWithin_example = split-IsWithin false raw

-- `w k:v ` is what came first.
abbrev part : Bytes
part = 119 ∷ 32 ∷ 107 ∷ 58 ∷ 118 ∷ 32 ∷ []

first_token : split_search_tokens false part ≡ gives 2 (119 ∷ [])
unfolding split_search_tokens split_keyed find_term bare_len word_len trim_right spaces index_byte
    take drop
first_token = refl

split-append_example : split_search_tokens true (part ++ raw) ≡ gives 2 (119 ∷ [])
split-append_example = split-append true part raw first_token
