-- ===== src/Queue/Safety.antt =====
-- One caller at a time has the connection, and none waits while it is free.
use alborz.Prelude.{
  ℕ, suc, ◌+◌, ◌≤◌, Bool, true, false, List, [], ◌∷◌, Option, none, some, ◌≡◌, ◌≢◌, refl, ◌⊎◌, inl,
  inr, ap, ◌∙◌, arith, ◌==◌, Bool-cases, Option-cases, length,
}
use alborz.Queue.{
  ImapWaiter, ImapQueue, Request, enter, take_foreground, next_waiter, release_from, release,
  without_waiter, withdraw,
}
use alborz.Queue.System.{
  System, holds, without, waits, woken, after_enter, after_release, after_cancel, Step, enters,
  releases, cancels, Reach, start, later,
}

abbrev count_of : Bool → ℕ
count_of true = 1
count_of false = 0

-- A busy connection has exactly one owner; a free one has none, and nobody waits for it.
pub record Inv (s : System) : Type 0 where
  pub owned : length s.owners ≡ count_of s.queue.busy
  pub idle : s.queue.busy ≡ false → s.queue.waiters ≡ []

length-without :
    (id : ℕ) (xs : List ℕ) → holds id xs ≡ true → suc (length (without id xs)) ≡ length xs
length-without id [] h = cc
length-without id (x ∷ xs) h = ground (arith, length-without id xs)

-- The length of the queue after `release`, and who was woken.
abbrev woke : Option ImapWaiter → ℕ
woke none = 0
woke (some w) = 1

length-take_foreground :
    (ws : List ImapWaiter) {v : ImapWaiter} {rest : List ImapWaiter}
    → take_foreground ws ≡ some (v, rest)
    → suc (length rest) ≡ length ws
unfolding take_foreground
length-take_foreground [] h = cc
length-take_foreground (w ∷ ws) h = elim (Option-cases (take_foreground ws)) [
  | inl e ↦ ground (arith, e)
  | inr ((u, us), e) ↦ ground (arith, length-take_foreground ws e)
]

length-next_waiter :
    (w : ImapWaiter) (ws : List ImapWaiter) → length (next_waiter w ws).1 ≡ length ws
unfolding next_waiter
length-next_waiter w ws = elim (Option-cases (take_foreground (w ∷ ws))) [
  | inl e ↦ rw (e, next_waiter)
  | inr ((v, rest), e) ↦ rw (e, next_waiter) (omega (arith, length-take_foreground (w ∷ ws) e))
]

-- Releasing a busy connection hands it to the one woken, and frees it when nobody waits.
record Handed (q : ImapQueue) (r : ImapQueue × Option ImapWaiter) : Type 0 where
  handed : q.busy ≡ true → woke r.1 ≡ count_of r.0.busy
  freed : r.0.busy ≡ false → r.0.waiters ≡ []
  shorter : length r.0.waiters ≤ length q.waiters

release_from-Handed :
    (q : ImapQueue) (ws : List ImapWaiter)
    → q.waiters ≡ ws
    → (q.busy ≡ false → ws ≡ [])
    → Handed q (release_from q ws)
unfolding release_from
release_from-Handed q [] e i = ground (arith, e)
release_from-Handed q (w ∷ ws) e i = record {
  handed = λ b. ground arith;
  freed = λ b. cc (i b);
  shorter = rw e (omega (arith, length-next_waiter w ws));
}

release-Handed : (q : ImapQueue) → (q.busy ≡ false → q.waiters ≡ []) → Handed q (release q)
unfolding release
release-Handed q = release_from-Handed q q.waiters refl

pub length-without_waiter :
    (id : ℕ) (ws : List ImapWaiter) {rest : List ImapWaiter}
    → without_waiter id ws ≡ some rest
    → suc (length rest) ≡ length ws
unfolding without_waiter
length-without_waiter id [] h = cc
length-without_waiter id (w ∷ ws) h = elim (Option-cases (without_waiter id ws)) [
  | inl e ↦ ground (arith, e)
  | inr (us, e) ↦ ground (arith, length-without_waiter id ws e)
]

without_waiter-waits :
    (id : ℕ) (ws : List ImapWaiter)
    → waits id ws ≡ true
    → (rest : List ImapWaiter) × (without_waiter id ws ≡ some rest)
unfolding without_waiter
without_waiter-waits id [] h = absurd (ground arith)
without_waiter-waits id (w ∷ ws) h = elim (Bool-cases (w.id == id)) [
  | inl here ↦ (ws, rw here)
  | inr on ↦ let (rest, e) = without_waiter-waits id ws (rw on at h) in (w ∷ rest, rw (on, e))
]

without_waiter-none :
    (id : ℕ) (ws : List ImapWaiter) → waits id ws ≡ false → without_waiter id ws ≡ none
unfolding without_waiter
without_waiter-none id [] h = refl
without_waiter-none id (w ∷ ws) h = ground (arith, without_waiter-none id ws)

after_enter-Inv : {s : System} (r : Request) → Inv s → Inv (after_enter s r)
unfolding after_enter enter
after_enter-Inv r i = ground arith

length-woken : (o : Option ImapWaiter) (xs : List ℕ) → length (woken o xs) ≡ woke o + length xs
length-woken none xs = omega arith
length-woken (some w) xs = omega arith

-- The step of an owner that gives the connection back.
after_release-Inv :
    {s : System} (id : ℕ) → Inv s → holds id s.owners ≡ true → Inv (after_release s id)
unfolding after_release
after_release-Inv {s} id i h = record {
  owned =
      let taken : s.queue.busy ≡ true = busy_of_holds s.queue.busy s.owners i.owned h in
      omega (
        arith,
        length-woken (release s.queue).1 (without id s.owners),
        r.handed taken,
        length-without id s.owners h,
        i.owned,
        ap count_of taken,
      );
  idle = r.freed;
}
  where
    r : Handed s.queue (release s.queue)
    r = release-Handed s.queue i.idle

    busy_of_holds :
        (b : Bool) (xs : List ℕ) → length xs ≡ count_of b → holds id xs ≡ true → b ≡ true
    busy_of_holds true xs e k = refl
    busy_of_holds false [] e k = cc
    busy_of_holds false (x ∷ xs) e k = absurd (omega arith)

busy_of_waits :
    (id : ℕ) (b : Bool) (ws : List ImapWaiter)
    → (b ≡ false → ws ≡ [])
    → waits id ws ≡ true
    → b ≡ true
busy_of_waits id true ws i h = refl
busy_of_waits id false ws i h = absurd (ground (arith, i refl))

after_cancel-Inv :
    {s : System} (id : ℕ)
    → Inv s
    → (waits id s.queue.waiters ≡ true) ⊎ (holds id s.owners ≡ true)
    → Inv (after_cancel s id)
unfolding after_cancel withdraw
after_cancel-Inv {s} id i h = elim (Bool-cases (waits id s.queue.waiters)) [
  | inl in_line ↦
      let (rest, e) = without_waiter-waits id s.queue.waiters in_line in
      let b = busy_of_waits id s.queue.busy s.queue.waiters i.idle in_line in
      rw (in_line, e, withdraw) (record { owned = i.owned; idle = λ f. cc })
  | inr gone ↦
      let kept : holds id s.owners ≡ true = elim h [ inl p ↦ absurd (ground arith) | inr p ↦ p ] in
      rw (gone, without_waiter-none id s.queue.waiters gone, withdraw)
        (unfold after_release in after_release-Inv id i kept)
]

Step-Inv : {P : Request → Type 0} {s t : System} → Step P s t → Inv s → Inv t
Step-Inv (enters r p e) i = rw e (after_enter-Inv r i)
Step-Inv (releases id h e) i = rw e (after_release-Inv id i h)
Step-Inv (cancels id h e) i = rw e (after_cancel-Inv id i h)

pub Reach-Inv : {P : Request → Type 0} {s : System} → Reach P s → Inv s
Reach-Inv start = record { owned = refl; idle = λ _. refl }
Reach-Inv (later r st) = Step-Inv st (Reach-Inv r)

-- In every state that the callers can bring about, whatever their requests and however their
-- entries, releases and cancellations interleave: at most one caller owns the connection.
pub one_owner : {P : Request → Type 0} {s : System} → Reach P s → length s.owners ≤ 1
one_owner {s = s} r = le_one s.queue.busy (Reach-Inv r).owned
  where
    le_one : (b : Bool) → length s.owners ≡ count_of b → length s.owners ≤ 1
    le_one true e = omega arith
    le_one false e = omega arith

-- No wakeup is lost: in every such state where a caller waits, some caller owns the connection,
-- whose release or cancellation wakes the next.
pub waiting_has_owner :
    {P : Request → Type 0} {s : System} → Reach P s → s.queue.waiters ≢ [] → length s.owners ≡ 1
waiting_has_owner {s = s} r w = (Reach-Inv r).owned ∙ ap count_of (busy s.queue.busy refl)
  where
    busy : (b : Bool) → s.queue.busy ≡ b → s.queue.busy ≡ true
    busy true e = e
    busy false e = absurd (w ((Reach-Inv r).idle e))
