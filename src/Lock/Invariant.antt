-- ===== src/Lock/Invariant.antt =====
-- About the counters and the queue of the lock (src/storage/operationLock.ts).
use ipfs_node.Base.{
  ℕ, suc, ◌+◌, ◌≤◌, ◌<◌, ◌≡◌, refl, ◌∙◌, ◌⊎◌, inl, inr, true, false, some, List, [], ◌∷◌, ◌++◌,
  arith, ap, In, here, there, Bool-cases, Option-cases, if◌then◌else◌, ltb, ◌||◌,
}
use ipfs_node.Lock.{
  Mode, shared, exclusive, Waiter, Lock, Event, acquires, releases, init, grant, enqueue, admits,
  take_lock, request, acquire, grant_readers, drain_queue, drain, take_lease, give_back, release,
  step, run,
}

abbrev count_shared : List Waiter → ℕ
count_shared [] = 0
count_shared (w ∷ ws) = elim w.mode [ shared ↦ suc (count_shared ws) | exclusive ↦ count_shared ws ]

abbrev count_exclusive : List Waiter → ℕ
count_exclusive [] = 0
count_exclusive (w ∷ ws) = elim w.mode [
  | shared ↦ count_exclusive ws
  | exclusive ↦ suc (count_exclusive ws)
]

-- The counters tell the leases that are out, readers and a writer are never out together, and nobody
-- waits for a free lock.
pub record Inv (s : Lock) : Type 0 where
  pub readers_counted : s.readers ≡ count_shared s.leases
  pub writer_counted : count_exclusive s.leases ≡ (if s.writer then 1 else 0)
  pub apart : s.writer ≡ true → s.readers ≡ 0
  pub nobody_stuck : s.waiters ≡ [] ⊎ (s.writer ≡ true) ⊎ (0 < s.readers)

-- The part of it that holds while the queue is being drained.
record Core (s : Lock) : Type 0 where
  readers_counted : s.readers ≡ count_shared s.leases
  writer_counted : count_exclusive s.leases ≡ (if s.writer then 1 else 0)
  apart : s.writer ≡ true → s.readers ≡ 0

count_shared-append :
    (xs ys : List Waiter) → count_shared (xs ++ ys) ≡ count_shared xs + count_shared ys
count_shared-append [] ys = omega arith
count_shared-append (x ∷ xs) ys = ground (arith, count_shared-append xs ys)

count_exclusive-append :
    (xs ys : List Waiter) → count_exclusive (xs ++ ys) ≡ count_exclusive xs + count_exclusive ys
count_exclusive-append [] ys = omega arith
count_exclusive-append (x ∷ xs) ys = ground (arith, count_exclusive-append xs ys)

init-Inv : Inv init
unfolding init
init-Inv = record {
  readers_counted = refl;
  writer_counted = refl;
  apart = λ e. refl;
  nobody_stuck = inl refl;
}

request-Inv : (mode : Mode) (s : Lock) → Inv s → Inv (request mode s).0
unfolding request grant enqueue admits take_lock
request-Inv shared s v = ground (
  arith,
  count_shared-append s.leases (record { id = s.next_id; mode = shared } ∷ []),
  count_exclusive-append s.leases (record { id = s.next_id; mode = shared } ∷ []),
)
request-Inv exclusive s v = ground (
  arith,
  count_shared-append s.leases (record { id = s.next_id; mode = exclusive } ∷ []),
  count_exclusive-append s.leases (record { id = s.next_id; mode = exclusive } ∷ []),
)

-- Handing one lease to the head of the queue keeps the counters.
grant_shared-Core :
    (w : Waiter) (s : Lock)
    → w.mode ≡ shared
    → Core s
    → s.writer ≡ false
    → Core (grant w (take_lock shared s))
unfolding grant take_lock
grant_shared-Core w s m c free =
    ground (arith, count_shared-append s.leases (w ∷ []), count_exclusive-append s.leases (w ∷ []))

grant_exclusive-Core :
    (w : Waiter) (s : Lock)
    → w.mode ≡ exclusive
    → Core s
    → s.writer ≡ false
    → s.readers ≡ 0
    → Core (grant w (take_lock exclusive s))
unfolding grant take_lock
grant_exclusive-Core w s m c free alone =
    ground (arith, count_shared-append s.leases (w ∷ []), count_exclusive-append s.leases (w ∷ []))

after_grant :
    (w : Waiter) (s : Lock)
    → ((grant w (take_lock shared s)).readers ≡ s.readers + 1)
      × ((grant w (take_lock shared s)).writer ≡ s.writer)
unfolding grant take_lock
after_grant w s = (refl, refl)

record Drained (from to : Lock) : Type 0 where
  core : Core to
  no_writer : to.writer ≡ false
  no_fewer : from.readers ≤ to.readers

pub Mode-cases : (m : Mode) → (m ≡ shared) ⊎ (m ≡ exclusive)
Mode-cases shared = inl refl
Mode-cases exclusive = inr refl

grant_readers-Drained :
    (ws : List Waiter) (s : Lock) → Core s → s.writer ≡ false → Drained s (grant_readers ws s)
unfolding grant_readers
grant_readers-Drained [] s c free = ground arith
grant_readers-Drained (w ∷ ws) s c free = elim (Mode-cases w.mode) [
  | inl m ↦
      let next = grant w (take_lock shared s) in
      let d =
        grant_readers-Drained ws next (grant_shared-Core w s m c free)
          ((after_grant w s).1 ∙ free) in
      rw (m, grant_readers)
        (record {
          core = d.core;
          no_writer = d.no_writer;
          no_fewer = omega (arith, d.no_fewer, (after_grant w s).0);
        })
  | inr m ↦ rw (m, grant_readers) (ground arith)
]

readers_granted :
    (w : Waiter) (ws : List Waiter) (s : Lock)
    → w.mode ≡ shared
    → Core s
    → s.writer ≡ false
    → 0 < (grant_readers (w ∷ ws) s).readers
unfolding grant_readers
readers_granted w ws s m c free =
    let d =
      grant_readers-Drained ws (grant w (take_lock shared s)) (grant_shared-Core w s m c free)
        ((after_grant w s).1 ∙ free) in
    rw (m, grant_readers) (omega (arith, d.no_fewer, (after_grant w s).0))

drain_queue-Inv :
    (ws : List Waiter) (s : Lock)
    → ws ≡ s.waiters
    → Core s
    → s.writer ≡ false
    → s.readers ≡ 0
    → Inv (drain_queue ws s)
unfolding drain_queue
drain_queue-Inv [] s e c free alone = ground arith
drain_queue-Inv (w ∷ ws) s e c free alone = elim (Mode-cases w.mode) [
  | inl m ↦
      let d = grant_readers-Drained (w ∷ ws) s c free in
      rw (m, drain_queue)
        (record {
          readers_counted = d.core.readers_counted;
          writer_counted = d.core.writer_counted;
          apart = d.core.apart;
          nobody_stuck = inr (inr (readers_granted w ws s m c free));
        })
  | inr m ↦
      let c' =
        grant_exclusive-Core w (record s { waiters = ws }) m
          (record {
            readers_counted = c.readers_counted;
            writer_counted = c.writer_counted;
            apart = c.apart;
          })
          free alone in
      rw (m, drain_queue)
        (record {
          readers_counted = c'.readers_counted;
          writer_counted = c'.writer_counted;
          apart = c'.apart;
          nobody_stuck = unfold grant take_lock in inr (inl refl);
        })
]

drain-Inv : (s : Lock) → Core s → Inv (drain s)
unfolding drain
drain-Inv s c = elim (Bool-cases (s.writer || ltb 0 s.readers)) [
  | inl busy ↦ rw busy (record {
    readers_counted = c.readers_counted;
    writer_counted = c.writer_counted;
    apart = c.apart;
    nobody_stuck = ground arith;
  })
  | inr free ↦ rw free (drain_queue-Inv s.waiters s refl c (ground arith) (ground arith))
]

take_lease-counts :
    (id : ℕ) (ws : List Waiter) (w : Waiter) (rest : List Waiter)
    → take_lease id ws ≡ some (w, rest)
    → (count_shared ws ≡ count_shared (w ∷ rest))
      × (count_exclusive ws ≡ count_exclusive (w ∷ rest))
unfolding take_lease
take_lease-counts id [] w rest e = cc
take_lease-counts id (x ∷ ws) w rest e = elim (Option-cases (take_lease id ws)) [
  | inl q ↦ ground arith
  | inr (r, q) ↦ ground (arith, take_lease-counts id ws r.0 r.1 q)
]

give_back-Core :
    (s : Lock) (w : Waiter) (rest : List Waiter)
    → Core s
    → count_shared s.leases ≡ count_shared (w ∷ rest)
    → count_exclusive s.leases ≡ count_exclusive (w ∷ rest)
    → Core (give_back w.mode (record s { leases = rest }))
unfolding give_back
give_back-Core s w rest c e f = ground arith

release-Inv : (id : ℕ) (s : Lock) → Inv s → Inv (release id s)
unfolding release
release-Inv id s v = elim (Option-cases (take_lease id s.leases)) [
  | inl e ↦ rw (e, release) v
  | inr (r, e) ↦
      let counts = take_lease-counts id s.leases r.0 r.1 e in
      rw (e, release)
        (drain-Inv (give_back r.0.mode (record s { leases = r.1 })) (
          give_back-Core s r.0 r.1
            (record {
              readers_counted = v.readers_counted;
              writer_counted = v.writer_counted;
              apart = v.apart;
            })
            counts.0 counts.1))
]

step-Inv : (e : Event) (s : Lock) → Inv s → Inv (step e s)
unfolding step acquire
step-Inv (acquires mode) s v = request-Inv mode s v
step-Inv (releases id) s v = release-Inv id s v

run-Inv : (es : List Event) (s : Lock) → Inv s → Inv (run es s)
unfolding run
run-Inv [] s v = v
run-Inv (e ∷ es) s v = run-Inv es (step e s) (step-Inv e s v)

-- After any sequence of requests and releases the counters tell the leases that are out, no reader is
-- out beside a writer, and nobody waits for a free lock.
pub run-init-Inv : (es : List Event) → Inv (run es init)
run-init-Inv es = run-Inv es init init-Inv

none_left : (ws : List Waiter) → count_exclusive ws ≡ 0 → count_shared ws ≡ 0 → ws ≡ []
none_left [] e f = refl
none_left (w ∷ ws) e f = ground arith

nowhere : {A : Type 0} (w : Waiter) (ws : List Waiter) → In w ws → ws ≡ [] → A
nowhere w [] m e = elim m [ ]
nowhere w (x ∷ ws) m e = cc e

only_one :
    (ws : List Waiter) (w : Waiter)
    → In w ws
    → count_exclusive ws ≡ 1
    → count_shared ws ≡ 0
    → ws ≡ w ∷ []
only_one [] w m e f = elim m [ ]
only_one (_ ∷ ws) w here e f = elim (Mode-cases w.mode) [
  | inl q ↦ ground (arith, e, f, q)
  | inr q ↦
      ap (λ (l : List Waiter). w ∷ l) (none_left ws (ground (arith, e, q)) (ground (arith, f, q)))
]
only_one (x ∷ ws) w (there m) e f = elim (Mode-cases x.mode) [
  | inl q ↦ ground (arith, e, f, q)
  | inr q ↦ nowhere w ws m (none_left ws (ground (arith, e, q)) (ground (arith, f, q)))
]

counted_lease :
    (ws : List Waiter) (w : Waiter) → In w ws → w.mode ≡ exclusive → 0 < count_exclusive ws
counted_lease [] w m q = elim m [ ]
counted_lease (_ ∷ ws) w here q = ground (arith, q)
counted_lease (x ∷ ws) w (there m) q = ground (arith, counted_lease ws w m q)

-- After any sequence of requests and releases, an exclusive lease that is out is the only lease
-- that is out.
pub exclusive_alone :
    (es : List Event) (w : Waiter)
    → In w (run es init).leases
    → w.mode ≡ exclusive
    → (run es init).leases ≡ w ∷ []
exclusive_alone es w m q =
    let v = run-init-Inv es in
    let some_writer = counted_lease (run es init).leases w m q in
    only_one (run es init).leases w m (ground (arith, v.writer_counted, some_writer))
      (ground (arith, v.writer_counted, some_writer, v.apart, v.readers_counted))
