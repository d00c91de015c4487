-- ===== src/Store/Shares/Answers.antt =====
-- The states of a share: what a run of answers makes of it.
use alborz.Prelude.{
  ℕ, Bool, true, false, ◌&&◌, ◌||◌, List, [], ◌∷◌, ◌≡◌, ◌⊎◌, refl, inl, inr, sym, ◌∙◌, arith, ltb,
  ◌==◌, Bool-cases,
}
use alborz.Store.Types.{Share, live}
use alborz.Store.Shares.{answered}

-- The share after answers, each at its time.
unfoldable pub answers : Share → List (Bool × ℕ) → Share
unfolding answered
answers sh [] = sh
answers sh ((accepts, now) ∷ rest) = answers (answered sh accepts now) rest

unfoldable pub last_answer : Bool → List (Bool × ℕ) → Bool
last_answer before [] = before
last_answer before ((accepts, now) ∷ rest) = last_answer accepts rest

-- The share is as the answer left it: accepted and nothing else, or not accepted and refused.
pub data Stands (sh : Share) : Bool → Type 0 where
  taken :
      {b : Bool}
      → b ≡ true
      → sh.accepted ≡ true
      → sh.declined ≡ false
      → sh.left ≡ false
      → Stands sh b
  refused :
      {b : Bool}
      → b ≡ false
      → sh.accepted ≡ false
      → (sh.declined ≡ true) ⊎ (sh.left ≡ true)
      → Stands sh b

answered-Stands : (sh : Share) (accepts : Bool) (now : ℕ) → Stands (answered sh accepts now) accepts
unfolding answered
answered-Stands sh true now = taken refl refl refl refl
answered-Stands sh false now = elim (Bool-cases sh.accepted) [
  | inl was ↦ refused refl (ground (arith, was)) (inr (ground (arith, was)))
  | inr was ↦ refused refl (ground (arith, was)) (inl (ground (arith, was)))
]

answers-Stands :
    (sh : Share) (before : Bool) (rest : List (Bool × ℕ))
    → Stands sh before
    → Stands (answers sh rest) (last_answer before rest)
unfolding answers last_answer
answers-Stands sh before [] s = s
answers-Stands sh before ((accepts, now) ∷ rest) s =
    answers-Stands (answered sh accepts now) accepts rest (answered-Stands sh accepts now)

answered-terms :
    (sh : Share) (accepts : Bool) (now : ℕ)
    → ((answered sh accepts now).expires ≡ sh.expires)
      × ((answered sh accepts now).write ≡ sh.write)
unfolding answered
answered-terms sh true now = (refl, refl)
answered-terms sh false now = elim (Bool-cases sh.accepted) [
  | inl was ↦ (ground (arith, was), ground (arith, was))
  | inr was ↦ (ground (arith, was), ground (arith, was))
]

answers-terms :
    (sh : Share) (rest : List (Bool × ℕ))
    → ((answers sh rest).expires ≡ sh.expires) × ((answers sh rest).write ≡ sh.write)
unfolding answers
answers-terms sh [] = (refl, refl)
answers-terms sh ((accepts, now) ∷ rest) =
    let (e, w) = answered-terms sh accepts now in
    let (e', w') = answers-terms (answered sh accepts now) rest in (e' ∙ e, w' ∙ w)

Stands-accepted : (sh : Share) (b : Bool) → Stands sh b → sh.accepted ≡ b
Stands-accepted sh b (taken e a d l) = a ∙ sym e
Stands-accepted sh b (refused e a r) = a ∙ sym e

-- After any run of at least one answer, a share is live at a time exactly when the last answer was
-- yes and it has not run out by then; if the last answer was yes it is accepted and marked neither
-- declined nor left, and if it was no it is not accepted and is marked one of them; and what it
-- allows is unchanged.
pub live-answers :
    (sh : Share) (accepts : Bool) (first : ℕ) (rest : List (Bool × ℕ)) (now : ℕ)
    → (let sh' = answers (answered sh accepts first) rest in
        let last = last_answer accepts rest in
        (live sh' now ≡ (last && (sh.expires == 0 || ltb now sh.expires)))
        × Stands sh' last
        × (sh'.write ≡ sh.write))
unfolding live
live-answers sh accepts first rest now =
    let stands =
      answers-Stands (answered sh accepts first) accepts rest (answered-Stands sh accepts first) in
    let (e, w) = answered-terms sh accepts first in
    let (e', w') = answers-terms (answered sh accepts first) rest in
    (rw (Stands-accepted _ _ stands, e', e) refl, stands, w' ∙ w)
