-- ===== src/Queue/Tests.antt =====
-- One queue at work: a caller that owns the connection, a background caller and a foreground one.
use alborz.Prelude.{◌≤◌, Bool, true, false, [], ◌∷◌, ◌≡◌, ◌≢◌, refl, length}
use alborz.Queue.{Request, imap_queue_limit, canceled, refused, enter, release, withdraw}
use alborz.Queue.Bound.{HasDone, waiters_bounded}
use alborz.Queue.Release.{Released, release-Released}
use alborz.Queue.Safety.{one_owner, waiting_has_owner}
use alborz.Queue.System.{
  System, init, after_enter, after_release, after_cancel, Reach, start, later, enters, releases,
}

abbrev asks : Bool → Request
asks b = record { ctx_ended = false; done_closed = false; has_done = true; background = b }

abbrev owned : System
owned = after_enter init (asks false)

abbrev contended : System
contended = after_enter (after_enter owned (asks true)) (asks false)

abbrev handed_over : System
handed_over = after_release contended 0

contended-Reach : Reach HasDone contended
contended-Reach =
    later (later (later start (enters (asks false) refl refl)) (enters (asks true) refl refl))
      (enters (asks false) refl refl)

handed_over-Reach : Reach HasDone handed_over
unfolding after_enter enter
handed_over-Reach = later contended-Reach (releases 0 refl refl)

-- The foreground caller, number 2, goes before the background one, number 1.
foreground_first : handed_over.owners ≡ 2 ∷ []
unfolding after_enter enter after_release release
foreground_first = refl

-- A caller cancelled after it was granted gives the connection on.
granted_then_cancelled : (after_cancel handed_over 2).owners ≡ 1 ∷ []
unfolding after_enter enter after_release release after_cancel withdraw
granted_then_cancelled = refl

ended_is_refused :
    (enter owned.queue (record (asks true) { done_closed = true }) 7).1 ≡ refused canceled
unfolding after_enter enter
ended_is_refused = refl

one_owner_example : length handed_over.owners ≤ 1
one_owner_example = one_owner handed_over-Reach

contended_waits : contended.queue.waiters ≢ []
unfolding after_enter enter
contended_waits e = cc

waiting_has_owner_example : length contended.owners ≡ 1
waiting_has_owner_example = waiting_has_owner contended-Reach contended_waits

waiters_bounded_example : length contended.queue.waiters ≤ imap_queue_limit
waiters_bounded_example = waiters_bounded contended-Reach

release-Released_example : Released contended.queue (release contended.queue)
release-Released_example = release-Released contended.queue
