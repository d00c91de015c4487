-- ===== src/Queue/Bound.antt =====
-- The length of the queue, when every caller comes with a `done` channel.
use alborz.Prelude.{
  ℕ, suc, ◌≤◌, true, List, [], ◌∷◌, Option, ◌≡◌, inl, inr, arith, Bool-cases, Option-cases, length,
  length-append,
}
use alborz.Queue.{ImapWaiter, ImapQueue, Request, imap_queue_limit, enter, without_waiter, withdraw}
use alborz.Queue.Release.{
  Splits, Released, free, woke_foreground, woke_background, release-Released,
}
use alborz.Queue.Safety.{length-without_waiter}
use alborz.Queue.System.{
  System, waits, after_enter, after_release, after_cancel, Step, enters, releases, cancels, Reach,
  start, later,
}

abbrev pub HasDone : Request → Type 0
HasDone r = r.has_done ≡ true

length-Splits :
    {ws rest : List ImapWaiter} {v : ImapWaiter} → Splits ws v rest → suc (length rest) ≡ length ws
length-Splits {v = v} s =
    rw (s.whole, s.left)
      (omega (arith, length-append s.before s.behind, length-append s.before (v ∷ s.behind)))

length-Released :
    {q : ImapQueue} {r : ImapQueue × Option ImapWaiter}
    → Released q r
    → length r.0.waiters ≤ length q.waiters
length-Released (free e f) = rw (f, e) (omega arith)
length-Released (woke_foreground e t) = rw e (omega (arith, length-Splits t.split))
length-Released (woke_background e f b) = rw (e, f) (omega arith)

length-withdraw : (q : ImapQueue) (id : ℕ) → length (withdraw q id).0.waiters ≤ length q.waiters
unfolding withdraw
length-withdraw q id = elim (Option-cases (without_waiter id q.waiters)) [
  | inl e ↦ rw (e, withdraw) (length-Released (release-Released q))
  | inr (rest, e) ↦ rw (e, withdraw) (omega (arith, length-without_waiter id q.waiters e))
]

length-enter :
    (q : ImapQueue) (r : Request) (id : ℕ)
    → HasDone r
    → length q.waiters ≤ imap_queue_limit
    → length (enter q r id).0.waiters ≤ imap_queue_limit
unfolding enter
length-enter q r id d h =
    ground (arith, length-append q.waiters (record { id = id; background = r.background } ∷ []))

Step-bounded :
    {s t : System}
    → Step HasDone s t
    → length s.queue.waiters ≤ imap_queue_limit
    → length t.queue.waiters ≤ imap_queue_limit
Step-bounded {s} (enters r d e) h = rw e (unfold after_enter in length-enter s.queue r s.next d h)
Step-bounded {s} (releases id p e) h =
    rw e (unfold after_release in omega (arith, length-Released (release-Released s.queue)))
Step-bounded {s} (cancels id p e) h = elim (Bool-cases (waits id s.queue.waiters)) [
  | inl in_line ↦
      rw e (unfold after_cancel in rw in_line (omega (arith, length-withdraw s.queue id)))
  | inr gone ↦ rw e (unfold after_cancel in rw gone (omega (arith, length-withdraw s.queue id)))
]

-- The queue stays bounded: in every state that callers with a `done` channel can bring about, at
-- most `imap_queue_limit` of them wait.
pub waiters_bounded : {s : System} → Reach HasDone s → length s.queue.waiters ≤ imap_queue_limit
waiters_bounded start = omega arith
waiters_bounded (later r st) = Step-bounded st (waiters_bounded r)
