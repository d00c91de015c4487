-- ===== src/Queue/Release.antt =====
-- Which waiter `release` wakes, and what it leaves of the queue.
use alborz.Prelude.{
  true, false, List, [], ◌∷◌, ◌++◌, Option, none, some, ◌≡◌, refl, inl, inr, ap, arith, Bool-cases,
  Option-cases, All,
}
use alborz.Queue.{ImapWaiter, ImapQueue, take_foreground, next_waiter, release_from, release}

abbrev pub IsBackground : ImapWaiter → Type 0
IsBackground w = w.background ≡ true

-- `ws` is `rest` with `v` put back behind `before`.
pub record Splits (ws : List ImapWaiter) (v : ImapWaiter) (rest : List ImapWaiter) : Type 0 where
  pub before : List ImapWaiter
  pub behind : List ImapWaiter
  pub whole : ws ≡ before ++ v ∷ behind
  pub left : rest ≡ before ++ behind

Splits-cons :
    {ws rest : List ImapWaiter} {v : ImapWaiter} (w : ImapWaiter)
    → Splits ws v rest
    → Splits (w ∷ ws) v (w ∷ rest)
Splits-cons w s = record {
  before = w ∷ s.before;
  behind = s.behind;
  whole = ap (◌∷◌ w) s.whole;
  left = ap (◌∷◌ w) s.left;
}

-- The first of the foreground: nothing but background waits before it.
pub record TakesFirst (ws : List ImapWaiter) (v : ImapWaiter) (rest : List ImapWaiter)
    : Type 0 where
  pub split : Splits ws v rest
  pub foreground : v.background ≡ false
  pub first : All IsBackground split.before

pub take_foreground-none : (ws : List ImapWaiter) → take_foreground ws ≡ none → All IsBackground ws
unfolding take_foreground
take_foreground-none [] h = tt
take_foreground-none (w ∷ ws) h = ground (arith, take_foreground-none ws)

pub take_foreground-some :
    (ws : List ImapWaiter) {v : ImapWaiter} {rest : List ImapWaiter}
    → take_foreground ws ≡ some (v, rest)
    → TakesFirst ws v rest
unfolding take_foreground Splits-cons
take_foreground-some [] h = cc
take_foreground-some (w ∷ ws) {v} {rest} h = elim (Bool-cases w.background) [
  | inl later ↦ elim (Option-cases (take_foreground ws)) [
    | inl e ↦ absurd (ground arith)
    | inr ((u, us), e) ↦
        let t = take_foreground-some ws e in
        let same : (u ≡ v) × (w ∷ us ≡ rest) = ground arith in
        subst2 same.0 same.1 (record {
          split = Splits-cons w t.split;
          foreground = t.foreground;
          first = (later, t.first);
        })
  ]
  | inr now ↦ record {
    split = record { before = []; behind = ws; whole = ground arith; left = ground arith };
    foreground = ground arith;
    first = tt;
  }
]
  where
    subst2 :
        {u : ImapWaiter} {us : List ImapWaiter}
        → u ≡ v
        → us ≡ rest
        → TakesFirst (w ∷ ws) u us
        → TakesFirst (w ∷ ws) v rest
    subst2 p q t = rw (← p, ← q) t

-- What `release` did: nobody waited and the connection is free, or one waiter was woken, the first
-- of the foreground, else the first of a queue that is all background.
pub data Released (q : ImapQueue) : ImapQueue × Option ImapWaiter → Type 0 where
  free :
      {r : ImapQueue × Option ImapWaiter}
      → q.waiters ≡ []
      → r ≡ (record q { busy = false }, none)
      → Released q r
  woke_foreground :
      {r : ImapQueue × Option ImapWaiter} {v : ImapWaiter} {rest : List ImapWaiter}
      → r ≡ (record q { waiters = rest }, some v)
      → TakesFirst q.waiters v rest
      → Released q r
  woke_background :
      {r : ImapQueue × Option ImapWaiter} {v : ImapWaiter} {rest : List ImapWaiter}
      → r ≡ (record q { waiters = rest }, some v)
      → q.waiters ≡ v ∷ rest
      → All IsBackground q.waiters
      → Released q r

release_from-Released :
    (q : ImapQueue) (ws : List ImapWaiter) → q.waiters ≡ ws → Released q (release_from q ws)
unfolding release_from
release_from-Released q [] e = free e refl
release_from-Released q (w ∷ ws) e = elim (Option-cases (take_foreground (w ∷ ws))) [
  | inl none_fore ↦
      woke_background (rw (none_fore, next_waiter)) e
        (rw e (take_foreground-none (w ∷ ws) none_fore))
  | inr ((v, rest), found) ↦
      woke_foreground {v = v} {rest = rest} (rw (found, next_waiter))
        (rw e (take_foreground-some (w ∷ ws) found))
]

-- The queue's promise: interactive work goes first, and each class in the order it came.
pub release-Released : (q : ImapQueue) → Released q (release q)
unfolding release
release-Released q = release_from-Released q q.waiters refl
