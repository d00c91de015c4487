-- ===== src/Queue.antt =====
-- imap_queue.go: the queue of requests for one IMAP connection. Each function below is what runs
-- under the mutex; a caller that waits is known by the number of its waiter.
pub mod Release
pub mod System
pub mod Safety
pub mod Bound
mod Tests
use alborz.Prelude.{
  ℕ, ◌≤◌, Bool, true, false, not, ◌&&◌, List, [], ◌∷◌, ◌++◌, Option, none, some, leb, ◌==◌,
  if◌then◌else◌, length,
}

abbrev pub imap_queue_limit : ℕ
imap_queue_limit = 64

-- A waiter's identity stands for its address and for its `ready` channel.
pub record ImapWaiter : Type 0 where
  pub id : ℕ
  pub background : Bool

pub record ImapQueue : Type 0 where
  pub busy : Bool
  pub waiters : List ImapWaiter

pub data QueueError : Type 0 where
  ctx_err canceled queue_full : QueueError

-- What `acquire` knows on entry: the context's error, whether `done` is closed, whether there is
-- a `done` at all, and the caller's class.
pub record Request : Type 0 where
  pub ctx_ended : Bool
  pub done_closed : Bool
  pub has_done : Bool
  pub background : Bool

pub data Entry : Type 0 where
  refused : QueueError → Entry
  granted : Entry
  queued : Entry

-- `acquire` up to its first `select` on the waiter.
unfoldable pub enter : ImapQueue → Request → ℕ → ImapQueue × Entry
enter q r id =
    if r.ctx_ended
    then (q, refused ctx_err)
    else if r.done_closed
    then (q, refused canceled)
    else if not q.busy
    then (record q { busy = true }, granted)
    else if r.has_done && leb imap_queue_limit (length q.waiters)
    then (q, refused queue_full)
    else (
      record q { waiters = q.waiters ++ record { id = id; background = r.background } ∷ [] },
      queued,
    )

-- The waiter that `release` wakes, and those that stay: the first of the foreground, else the
-- first of all.
unfoldable pub take_foreground : List ImapWaiter → Option (ImapWaiter × List ImapWaiter)
take_foreground [] = none
take_foreground (w ∷ ws) =
    if not w.background
    then some (w, ws)
    else elim (take_foreground ws) [ none ↦ none | some (v, vs) ↦ some (v, w ∷ vs) ]

unfoldable pub next_waiter : ImapWaiter → List ImapWaiter → ImapWaiter × List ImapWaiter
unfolding take_foreground
next_waiter w ws = elim (take_foreground (w ∷ ws)) [ none ↦ (w, ws) | some p ↦ p ]

-- `release`: the waiter whose `ready` it closes, if there is one.
unfoldable pub release_from : ImapQueue → List ImapWaiter → ImapQueue × Option ImapWaiter
unfolding next_waiter
release_from q [] = (record q { busy = false }, none)
release_from q (w ∷ ws) = let (v, rest) = next_waiter w ws in (record q { waiters = rest }, some v)

unfoldable pub release : ImapQueue → ImapQueue × Option ImapWaiter
unfolding release_from
release q = release_from q q.waiters

-- The loop of a cancelled `acquire` that looks for its own waiter.
unfoldable pub without_waiter : ℕ → List ImapWaiter → Option (List ImapWaiter)
without_waiter id [] = none
without_waiter id (w ∷ ws) =
    if w.id == id
    then some ws
    else elim (without_waiter id ws) [ none ↦ none | some vs ↦ some (w ∷ vs) ]

-- `acquire` after its wait was cancelled: it leaves the queue, or gives back what it was granted.
unfoldable pub withdraw : ImapQueue → ℕ → ImapQueue × Option ImapWaiter
unfolding without_waiter release
withdraw q id = elim (without_waiter id q.waiters) [
  | some rest ↦ (record q { waiters = rest }, none)
  | none ↦ release q
]
