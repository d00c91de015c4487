-- ===== src/Search/Words.antt =====
-- The loop of `bareTerms` ends.
use alborz.Prelude.{
  ℕ, zero, suc, ◌≤◌, ◌<◌, false, List, [], ◌∷◌, ◌++◌, some, if◌then◌else◌, length, ◌≡◌, refl, ap,
  arith,
}
use alborz.Search.{Bytes, space, take, drop, begins_with, spaces, bare_len}
use alborz.Search.Parse.{
  Term, is_plain, flush, bare_term, trim_left, and_terms, bare_loop, bare_terms,
}
use alborz.Search.Turns.{length-drop, begins_with-trim_left, bare_len-positive}

trim_left-shorter : (b : Bytes) → length (trim_left b) ≤ length b
trim_left-shorter b = omega (arith, length-drop (spaces b) b)

-- The loop of `bareTerms` ends: fuel for each byte, and one more, is enough.
pub bare_loop-total :
    (fuel : ℕ) (run : Bytes) (words : List Bytes)
    → begins_with space run ≡ false
    → length run < fuel
    → (terms : List Term) × (bare_loop fuel run words ≡ some terms)
unfolding bare_loop
bare_loop-total zero run words h e = absurd (omega (arith, e))
bare_loop-total (suc fuel) [] words h e = (flush words, refl)
bare_loop-total (suc fuel) (c ∷ b) words h e =
    let word = take (bare_len (c ∷ b)) (c ∷ b) in
    let after = drop (bare_len (c ∷ b)) (c ∷ b) in
    let (terms, rest) =
      bare_loop-total fuel (trim_left after) (if is_plain word then words ++ word ∷ [] else [])
        (begins_with-trim_left after)
        (omega (
          arith,
          e,
          trim_left-shorter after,
          length-drop (bare_len (c ∷ b)) (c ∷ b),
          bare_len-positive c b h,
        )) in
    (
      (if is_plain word then [] else flush words ++ bare_term word ∷ []) ++ terms,
      ap (and_terms (if is_plain word then [] else flush words ++ bare_term word ∷ [])) rest,
    )

pub bare_terms-total : (run : Bytes) → (terms : List Term) × (bare_terms run ≡ some terms)
unfolding bare_terms
bare_terms-total run =
    bare_loop-total (suc (length run)) (trim_left run) [] (begins_with-trim_left run)
      (omega (arith, trim_left-shorter run))
