-- ===== src/Queue/System.antt =====
-- The callers of one queue as interleaved steps: each step is what one caller does under the mutex.
use alborz.Prelude.{
  ℕ, suc, Bool, true, false, List, [], ◌∷◌, Option, none, some, ◌≡◌, ◌⊎◌, ◌==◌, if◌then◌else◌,
}
use alborz.Queue.{
  ImapWaiter, ImapQueue, Entry, refused, granted, queued, Request, enter, release, withdraw,
}

-- `owners` are the callers that the connection was given to and that have not called `release`:
-- those whose `ready` is closed are among them, whether they have seen it or not.
pub record System : Type 0 where
  pub queue : ImapQueue
  pub owners : List ℕ
  pub next : ℕ

abbrev pub init : System
init = record { queue = record { busy = false; waiters = [] }; owners = []; next = 0 }

abbrev pub holds : ℕ → List ℕ → Bool
holds id [] = false
holds id (x ∷ xs) = if x == id then true else holds id xs

abbrev pub without : ℕ → List ℕ → List ℕ
without id [] = []
without id (x ∷ xs) = if x == id then xs else x ∷ without id xs

abbrev pub waits : ℕ → List ImapWaiter → Bool
waits id [] = false
waits id (w ∷ ws) = if w.id == id then true else waits id ws

abbrev pub woken : Option ImapWaiter → List ℕ → List ℕ
woken none owners = owners
woken (some w) owners = w.id ∷ owners

abbrev pub entered : Entry → ℕ → List ℕ → List ℕ
entered granted id owners = id ∷ owners
entered queued id owners = owners
entered (refused e) id owners = owners

unfoldable pub after_enter : System → Request → System
after_enter s r =
    let (q, e) = enter s.queue r s.next in
    record { queue = q; owners = entered e s.next s.owners; next = suc s.next }

unfoldable pub after_release : System → ℕ → System
after_release s id =
    let (q, w) = release s.queue in record s { queue = q; owners = woken w (without id s.owners) }

-- A cancelled caller that still waits only leaves; one that was granted meanwhile releases.
unfoldable pub after_cancel : System → ℕ → System
after_cancel s id =
    let (q, w) = withdraw s.queue id in
    if waits id s.queue.waiters
    then record s { queue = q }
    else record s { queue = q; owners = woken w (without id s.owners) }

pub data Step (P : Request → Type 0) (s : System) : System → Type 0 where
  enters : {t : System} (r : Request) → P r → t ≡ after_enter s r → Step P s t
  releases : {t : System} (id : ℕ) → holds id s.owners ≡ true → t ≡ after_release s id → Step P s t
  cancels :
      {t : System} (id : ℕ)
      → (waits id s.queue.waiters ≡ true) ⊎ (holds id s.owners ≡ true)
      → t ≡ after_cancel s id
      → Step P s t

-- The states that callers whose requests all satisfy `P` can bring about.
pub data Reach (P : Request → Type 0) : System → Type 0 where
  start : Reach P init
  later : {s t : System} → Reach P s → Step P s t → Reach P t
