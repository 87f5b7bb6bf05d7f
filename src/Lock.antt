-- ===== src/Lock.antt =====
-- src/storage/operationLock.ts: the fair reader/writer lock between uploads and collection.
-- A lease is known by the number of its request. `leases` are the leases whose `released` flag is
-- still false; `granted` is the sequence of `resolve` calls so far.
pub mod Invariant
pub mod Fairness
pub mod Tests
use ipfs_node.Base.{
  ℕ, suc, ◌+◌, ◌-◌, Bool, true, false, ◌&&◌, ◌||◌, not, Option, none, some, List, [], ◌∷◌, ◌++◌,
  map, ltb, ◌==◌, if◌then◌else◌,
}

pub data Mode : Type 0 where
  shared exclusive : Mode

pub record Waiter : Type 0 where
  pub id : ℕ
  pub mode : Mode

pub record Lock : Type 0 where
  pub readers : ℕ
  pub writer : Bool
  pub waiters : List Waiter
  pub leases : List Waiter
  pub granted : List Waiter
  pub next_id : ℕ

pub data Answer : Type 0 where
  granted_now : ℕ → Answer
  queued : ℕ → Answer
  deadlock_avoided : Mode → Mode → Answer

unfoldable pub init : Lock
init = record { readers = 0; writer = false; waiters = []; leases = []; granted = []; next_id = 0 }

abbrev pub is_empty {ℓ} : {A : Type ℓ} → List A → Bool
is_empty [] = true
is_empty (x ∷ xs) = false

-- `resolve(this.lease(mode))`
unfoldable pub grant : Waiter → Lock → Lock
grant w s = record s { leases = s.leases ++ w ∷ []; granted = s.granted ++ w ∷ [] }

unfoldable pub enqueue : Waiter → Lock → Lock
enqueue w s = record s { waiters = s.waiters ++ w ∷ [] }

unfoldable pub admits : Mode → Lock → Bool
admits shared s = not s.writer && is_empty s.waiters
admits exclusive s = not s.writer && (s.readers == 0 && is_empty s.waiters)

-- What taking the lock writes before the lease is handed out.
unfoldable pub take_lock : Mode → Lock → Lock
take_lock shared s = record s { readers = s.readers + 1 }
take_lock exclusive s = record s { writer = true }

-- `acquireShared` and `acquireExclusive` past the guard against reentry.
unfoldable pub request : Mode → Lock → Lock × Answer
request mode s =
    let w : Waiter = record { id = s.next_id; mode = mode } in
    let s' = record s { next_id = suc s.next_id } in
    if admits mode s
    then (grant w (take_lock mode s'), granted_now w.id)
    else (enqueue w s', queued w.id)

-- `holding` is the lease of the running callback.
unfoldable pub acquire : Option Mode → Mode → Lock → Lock × Answer
acquire (some holding) wanted s = (s, deadlock_avoided holding wanted)
acquire none wanted s = request wanted s

-- The loop that grants every reader at the head of the queue.
unfoldable pub grant_readers : List Waiter → Lock → Lock
grant_readers [] s = record s { waiters = [] }
grant_readers (w ∷ ws) s = elim w.mode [
  | shared ↦ grant_readers ws (grant w (take_lock shared s))
  | exclusive ↦ record s { waiters = w ∷ ws }
]

-- The body of `drain` at a free lock, by its queue.
unfoldable pub drain_queue : List Waiter → Lock → Lock
drain_queue [] s = s
drain_queue (w ∷ ws) s = elim w.mode [
  | exclusive ↦ grant w (take_lock exclusive (record s { waiters = ws }))
  | shared ↦ grant_readers (w ∷ ws) s
]

unfoldable pub drain : Lock → Lock
drain s = if s.writer || ltb 0 s.readers then s else drain_queue s.waiters s

-- The lease of a request, taken out of the list.
unfoldable pub take_lease : ℕ → List Waiter → Option (Waiter × List Waiter)
take_lease id [] = none
take_lease id (w ∷ ws) =
    if w.id == id
    then some (w, ws)
    else elim (take_lease id ws) [ none ↦ none | some (v, rest) ↦ some (v, w ∷ rest) ]

unfoldable pub give_back : Mode → Lock → Lock
give_back shared s = record s { readers = s.readers - 1 }
give_back exclusive s = record s { writer = false }

-- `lease.release()`; a second call finds the flag set.
unfoldable pub release : ℕ → Lock → Lock
release id s = elim (take_lease id s.leases) [
  | none ↦ s
  | some (w, rest) ↦ drain (give_back w.mode (record s { leases = rest }))
]

pub data Event : Type 0 where
  acquires : Mode → Event
  releases : ℕ → Event

unfoldable pub step : Event → Lock → Lock
step (acquires mode) s = (acquire none mode s).0
step (releases id) s = release id s

unfoldable pub run : List Event → Lock → Lock
run [] s = s
run (e ∷ es) s = run es (step e s)
