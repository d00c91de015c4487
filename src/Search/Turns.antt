-- ===== src/Search/Turns.antt =====
-- Each turn of the loops of search/query.go passes at least one byte, so they end.
use alborz.Prelude.{
  ℕ, zero, suc, ◌+◌, ◌-◌, ◌≤◌, ◌<◌, false, not, ◌&&◌, [], ◌∷◌, Option, none, some, ◌==◌, length,
  ◌≡◌, inl, inr, refl, ap, ◌∙◌, arith, Option-cases, Bool-cases,
}
use alborz.Search.{
  Bytes, space, quote, colon, take, drop, index_byte, has_byte, begins_with, spaces, word_len,
  phrased, or_zero, bare_len, find_term,
}

pub length-drop : (n : ℕ) (b : Bytes) → length (drop n b) ≡ length b - n
unfolding drop
length-drop n [] = omega arith
length-drop zero (c ∷ b) = omega arith
length-drop (suc n) (c ∷ b) = omega (arith, length-drop n b)

-- How far the loop goes on: the word and the spaces after it.
abbrev pub next_word : Bytes → ℕ
next_word b = bare_len b + spaces (drop (bare_len b) b)

pub begins_with-trim_left : (b : Bytes) → begins_with space (drop (spaces b) b) ≡ false
unfolding spaces drop
begins_with-trim_left [] = refl
begins_with-trim_left (c ∷ b) = elim (Bool-cases (c == space)) [
  | inl e ↦ rw (e, spaces, drop) (begins_with-trim_left b)
  | inr e ↦ rw (e, spaces, drop) e
]

drop-drop : (n m : ℕ) (b : Bytes) → drop (n + m) b ≡ drop m (drop n b)
unfolding drop
drop-drop n m [] = refl
drop-drop zero m (c ∷ b) = ap (λ x. drop x (c ∷ b)) (omega arith)
drop-drop (suc n) m (c ∷ b) =
    let same : suc n + m ≡ suc (n + m) = omega arith in
    ap (λ x. drop x (c ∷ b)) same ∙ drop-drop n m b

pub bare_len-positive : (c : ℕ) (b : Bytes) → (c == space) ≡ false → 0 < bare_len (c ∷ b)
unfolding bare_len word_len
bare_len-positive c b h = elim (Bool-cases (phrased (c ∷ b))) [
  | inr e ↦ ground (arith, e, h)
  | inl e ↦
      let first = or_zero (index_byte quote (c ∷ b)) in
      elim (Option-cases (index_byte quote (drop (first + 1) (c ∷ b)))) [
        | inl f ↦ ground (arith, e, f)
        | inr (closing, f) ↦ ground (arith, e, f)
      ]
]

-- The loop of `splitSearchTokens` ends: fuel for each byte is enough, where the text does not begin with
-- a space, as there.
pub find_term-total :
    (fuel i : ℕ) (b : Bytes)
    → begins_with space b ≡ false
    → length b ≤ fuel
    → (found : Option ℕ) × (find_term fuel i b ≡ some found)
unfolding find_term
find_term-total fuel i [] h e = (none, refl)
find_term-total zero i (c ∷ b) h e = absurd (omega (arith, e))
find_term-total (suc fuel) i (c ∷ b) h e =
    let n = next_word (c ∷ b) in
    let begins : begins_with space (drop n (c ∷ b)) ≡ false =
      ap (begins_with space)
        (drop-drop (bare_len (c ∷ b)) (spaces (drop (bare_len (c ∷ b)) (c ∷ b))) (c ∷ b))
      ∙ begins_with-trim_left (drop (bare_len (c ∷ b)) (c ∷ b)) in
    let (found, later) =
      find_term-total fuel (i + n) (drop n (c ∷ b)) begins
        (omega (arith, length-drop n (c ∷ b), bare_len-positive c b h, e)) in
    let here = not (phrased (c ∷ b)) && has_byte colon (take (bare_len (c ∷ b)) (c ∷ b)) in
    elim (Bool-cases here) [
      | inl k ↦ (some i, ground (arith, k))
      | inr k ↦ (found, ground (arith, k, later))
    ]
