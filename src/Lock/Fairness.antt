-- ===== src/Lock/Fairness.antt =====
-- About the order in which the lock grants requests (src/storage/operationLock.ts).
use mathlib.Core.List.{append_assoc, append-nil, map-append}
use ipfs_node.Base.{
  ℕ, zero, suc, ◌≡◌, refl, sym, ap, ◌∙◌, inl, inr, true, List, [], ◌∷◌, ◌++◌, map, arith,
  Bool-cases, Option-cases, ltb, ◌||◌,
}
use ipfs_node.Lock.{
  Mode, shared, exclusive, Waiter, Lock, Event, acquires, releases, init, grant, enqueue, admits,
  take_lock, request, acquire, grant_readers, drain_queue, drain, take_lease, give_back, release,
  step, run,
}

-- The requests that were answered or still wait, as they were answered and as they wait.
abbrev pub served : Lock → List Waiter
served s = s.granted ++ s.waiters

served-grant_readers : (ws : List Waiter) (s : Lock) → served (grant_readers ws s) ≡ s.granted ++ ws
unfolding grant_readers grant take_lock
served-grant_readers [] s = refl
served-grant_readers (w ∷ ws) s = ground (
  arith,
  served-grant_readers ws (grant w (take_lock shared s)),
  append_assoc s.granted (w ∷ []) ws,
)

served-drain_queue :
    (ws : List Waiter) (s : Lock) → ws ≡ s.waiters → served (drain_queue ws s) ≡ s.granted ++ ws
unfolding drain_queue grant take_lock
served-drain_queue [] s e = ground arith
served-drain_queue (w ∷ ws) s e =
    ground (arith, served-grant_readers (w ∷ ws) s, append_assoc s.granted (w ∷ []) ws)

served-drain : (s : Lock) → served (drain s) ≡ served s
unfolding drain
served-drain s = elim (Bool-cases (s.writer || ltb 0 s.readers)) [
  | inl busy ↦ rw busy
  | inr free ↦ rw free (served-drain_queue s.waiters s refl)
]

served-release : (id : ℕ) (s : Lock) → served (release id s) ≡ served s
unfolding release give_back
served-release id s = elim (Option-cases (take_lease id s.leases)) [
  | inl e ↦ rw (e, release)
  | inr (r, e) ↦
      rw (e, release)
        (served-drain (give_back r.0.mode (record s { leases = r.1 })) ∙ given (r.0.mode) r.1)
]
  where
    given :
        (m : Mode) (rest : List Waiter)
        → served (give_back m (record s { leases = rest })) ≡ served s
    given shared rest = refl
    given exclusive rest = refl

admits_empty : (m : Mode) (s : Lock) → admits m s ≡ true → s.waiters ≡ []
unfolding admits
admits_empty shared s h = ground arith
admits_empty exclusive s h = ground arith

empty_queue :
    (g ws : List Waiter) (w : Waiter) → ws ≡ [] → (g ++ w ∷ []) ++ ws ≡ (g ++ ws) ++ w ∷ []
empty_queue g ws w e = rw e (simp append-nil)

served-request :
    (m : Mode) (s : Lock)
    → served (request m s).0 ≡ served s ++ record { id = s.next_id; mode = m } ∷ []
unfolding request grant enqueue take_lock
served-request shared s = elim (Bool-cases (admits shared s)) [
  | inl now ↦ rw now (empty_queue s.granted s.waiters _ (admits_empty shared s now))
  | inr later ↦ rw later (sym (append_assoc s.granted s.waiters _))
]
served-request exclusive s = elim (Bool-cases (admits exclusive s)) [
  | inl now ↦ rw now (empty_queue s.granted s.waiters _ (admits_empty exclusive s now))
  | inr later ↦ rw later (sym (append_assoc s.granted s.waiters _))
]

next_id-request : (m : Mode) (s : Lock) → (request m s).0.next_id ≡ suc s.next_id
unfolding request grant enqueue take_lock
next_id-request shared s = ground arith
next_id-request exclusive s = ground arith

next_id-grant_readers : (ws : List Waiter) (s : Lock) → (grant_readers ws s).next_id ≡ s.next_id
unfolding grant_readers grant take_lock
next_id-grant_readers [] s = refl
next_id-grant_readers (w ∷ ws) s =
    ground (arith, next_id-grant_readers ws (grant w (take_lock shared s)))

next_id-drain_queue : (ws : List Waiter) (s : Lock) → (drain_queue ws s).next_id ≡ s.next_id
unfolding drain_queue grant take_lock
next_id-drain_queue [] s = refl
next_id-drain_queue (w ∷ ws) s = ground (arith, next_id-grant_readers (w ∷ ws) s)

next_id-release : (id : ℕ) (s : Lock) → (release id s).next_id ≡ s.next_id
unfolding release drain give_back
next_id-release id s = elim (Option-cases (take_lease id s.leases)) [
  | inl e ↦ rw (e, release)
  | inr (r, e) ↦ rw (e, release) (given r.0.mode r.1)
]
  where
    given :
        (m : Mode) (rest : List Waiter)
        → (drain (give_back m (record s { leases = rest }))).next_id ≡ s.next_id
    given shared rest =
        ground
          (arith, next_id-drain_queue s.waiters (give_back shared (record s { leases = rest })))
    given exclusive rest =
        ground
          (arith, next_id-drain_queue s.waiters (give_back exclusive (record s { leases = rest })))

-- The numbers of the first `n` requests.
abbrev pub first_ids : ℕ → List ℕ
first_ids zero = []
first_ids (suc n) = first_ids n ++ n ∷ []

abbrev pub ids : List Waiter → List ℕ
ids = map (λ w. w.id)

abbrev InOrder : Lock → Type 0
InOrder s = ids (served s) ≡ first_ids s.next_id

step-InOrder : (e : Event) (s : Lock) → InOrder s → InOrder (step e s)
unfolding step acquire
step-InOrder (acquires m) s v =
    rw (served-request m s, next_id-request m s, map-append)
      (ap (λ (l : List ℕ). l ++ s.next_id ∷ []) v)
step-InOrder (releases id) s v = rw (served-release id s, next_id-release id s) v

run-InOrder : (es : List Event) (s : Lock) → InOrder s → InOrder (run es s)
unfolding run
run-InOrder [] s v = v
run-InOrder (e ∷ es) s v = run-InOrder es (step e s) (step-InOrder e s v)

-- Whatever the sequence of requests and releases, the lock has granted the requests in the order in
-- which they came: the granted ones and then the waiting ones are requests 0, 1, 2 and so on, with none
-- skipped, lost or repeated.
pub run-in_order : (es : List Event) → ids (served (run es init)) ≡ first_ids (run es init).next_id
run-in_order es = run-InOrder es init (unfold init in refl)
