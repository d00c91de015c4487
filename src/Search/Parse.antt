-- ===== src/Search/Parse.antt =====
-- `Parse`, and what is written back of a query.
use alborz.Prelude.{
  ℕ, zero, suc, ◌+◌, Bool, true, false, not, ◌&&◌, ◌||◌, List, [], ◌∷◌, ◌++◌, map, Option, none,
  some, ◌==◌, if◌then◌else◌, length,
}
use alborz.Search.{
  Bytes, space, quote, colon, dash, take, drop, index_byte, has_byte, begins_with, spaces, phrased,
  or_zero, bare_len, scan_tokens,
}

pub record Term : Type 0 where
  pub key : Bytes
  pub value : Bytes
  pub negated : Bool
  pub quoted : Bool

abbrev pub Query : Type 0
Query = List Term

abbrev pub is_empty : {A : Type 0} → List A → Bool
is_empty [] = true
is_empty (c ∷ b) = false

-- `strings.CutPrefix` of one byte.
abbrev pub cut_byte : ℕ → Bytes → Bytes
cut_byte x [] = []
cut_byte x (c ∷ b) = if c == x then b else c ∷ b

-- `strings.ReplaceAll` of a byte by nothing.
unfoldable pub remove_byte : ℕ → Bytes → Bytes
remove_byte x [] = []
remove_byte x (c ∷ b) = let rest = remove_byte x b in if c == x then rest else c ∷ rest

-- `strings.Join` with a space.
unfoldable pub join : List Bytes → Bytes
join [] = []
join (word ∷ []) = word
join (word ∷ w ∷ words) = word ++ space ∷ join (w ∷ words)

-- `bytes.Equal`.
unfoldable pub same_bytes : Bytes → Bytes → Bool
same_bytes [] [] = true
same_bytes (c ∷ a) (d ∷ b) = let rest = same_bytes a b in c == d && rest
same_bytes _ _ = false

abbrev pub word_term : Bytes → Term
word_term value = record { key = []; value = value; negated = false; quoted = false }

abbrev pub flush : List Bytes → List Term
flush [] = []
flush (word ∷ words) = word_term (join (word ∷ words)) ∷ []

abbrev pub bare_value : Bytes → Bytes
bare_value word = remove_byte quote (cut_byte dash word)

-- The word stays one of several, and has no term of its own.
abbrev pub is_plain : Bytes → Bool
is_plain word =
    is_empty (bare_value word)
    || (not (begins_with dash word) && not (begins_with quote (cut_byte dash word)))

abbrev pub bare_term : Bytes → Term
bare_term word = record {
  key = [];
  value = bare_value word;
  negated = begins_with dash word;
  quoted = begins_with quote (cut_byte dash word);
}

abbrev pub and_terms : List Term → Option (List Term) → Option (List Term)
and_terms out none = none
and_terms out (some terms) = some (out ++ terms)

-- `strings.TrimLeft(b, " ")`.
abbrev pub trim_left : Bytes → Bytes
trim_left b = drop (spaces b) b

-- The loop of `bareTerms`.
unfoldable pub bare_loop : ℕ → Bytes → List Bytes → Option (List Term)
unfolding bare_len take drop spaces remove_byte join
bare_loop zero run words = none
bare_loop (suc fuel) [] words = some (flush words)
bare_loop (suc fuel) (c ∷ b) words =
    let word = take (bare_len (c ∷ b)) (c ∷ b) in
    let out = if is_plain word then [] else flush words ++ bare_term word ∷ [] in
    let rest =
      bare_loop fuel (trim_left (drop (bare_len (c ∷ b)) (c ∷ b)))
        (if is_plain word then words ++ word ∷ [] else []) in
    and_terms out rest

-- `bareTerms`, with fuel for each byte.
unfoldable pub bare_terms : Bytes → Option (List Term)
unfolding bare_loop drop spaces
bare_terms run = bare_loop (suc (length run)) (trim_left run) []

-- `lower` is `strings.ToLower`.
module _ (lower : Bytes → Bytes) where
  abbrev pub key_of : Bytes → Bytes
  key_of token = lower (cut_byte dash (take (or_zero (index_byte colon token)) token))

  abbrev pub value_of : Bytes → Bytes
  value_of token = drop (or_zero (index_byte colon token) + 1) token

  abbrev pub keyed_term : Bytes → Term
  keyed_term token = record {
    key = key_of token;
    value = value_of token;
    negated = begins_with dash (take (or_zero (index_byte colon token)) token);
    quoted = false;
  }

  -- The terms of a token.
  unfoldable pub token_terms : Bytes → Option (List Term)
  unfolding bare_terms index_byte take drop
  token_terms token =
      if phrased token || not (has_byte colon token)
      then bare_terms token
      else if is_empty (key_of token) || is_empty (value_of token)
      then some (word_term token ∷ [])
      else some (keyed_term token ∷ [])

  abbrev pub both_terms : Option (List Term) → Option (List Term) → Option (List Term)
  both_terms none rest = none
  both_terms (some terms) rest = and_terms terms rest

  unfoldable pub all_terms : List Bytes → Option Query
  unfolding token_terms
  all_terms [] = some []
  all_terms (token ∷ tokens) = both_terms (token_terms token) (all_terms tokens)

  abbrev pub of_tokens : Option (List Bytes) → Option Query
  of_tokens none = none
  of_tokens (some tokens) = all_terms tokens

  -- `Parse`.
  unfoldable pub parse : Bytes → Option Query
  unfolding scan_tokens all_terms
  parse raw = of_tokens (scan_tokens (suc (length raw)) raw)

-- `(Term).String`.
abbrev print_value : Term → Bytes
print_value t =
    if t.quoted || (not (is_empty t.key) && has_byte space t.value)
    then quote ∷ t.value ++ quote ∷ []
    else t.value

abbrev pub print_term : Term → Bytes
print_term t =
    let keyed = if is_empty t.key then print_value t else t.key ++ colon ∷ print_value t in
    if t.negated then dash ∷ keyed else keyed

-- `(Query).String`, `Without`, `Words` and `Keys`.
unfoldable pub print_query : Query → Bytes
unfolding join index_byte
print_query q = join (map print_term q)

unfoldable pub less : Bytes → Query → Query
unfolding same_bytes
less key [] = []
less key (t ∷ q) = let rest = less key q in if same_bytes t.key key then rest else t ∷ rest

unfoldable pub without : Bytes → Query → Bytes
unfolding less join index_byte
without key q = join (map print_term (less key q))

unfoldable pub words : Query → Query
words [] = []
words (t ∷ q) = let rest = words q in if is_empty t.key then t ∷ rest else rest

unfoldable pub has_key : Bytes → List Bytes → Bool
unfolding same_bytes
has_key key [] = false
has_key key (k ∷ keys) = same_bytes k key || has_key key keys

unfoldable pub add_keys : Query → List Bytes → List Bytes
unfolding has_key
add_keys [] keys = keys
add_keys (t ∷ q) keys =
    add_keys q
      (if not (is_empty t.key) && not (has_key t.key keys) then keys ++ t.key ∷ [] else keys)

abbrev pub keys_of : Query → List Bytes
keys_of q = add_keys q []
