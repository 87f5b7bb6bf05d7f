-- ===== src/Intake/Limits.antt =====
-- About the budgets at one reservation (src/storage/intakeBudget.ts).
use ipfs_node.Base.Texts.{Text, text_eq, text_eq_iff}
use ipfs_node.Base.{
  ℕ, suc, ◌+◌, ◌≤◌, ◌<◌, ◌≡◌, refl, ap, inl, inr, true, none, some, List, [], ◌∷◌, arith,
  Bool-cases, ltb, if◌then◌else◌, length, All,
}
use ipfs_node.Intake.{
  Spend, Reservation, Budget, window_ms, bucket_ms, per_peer_bytes, per_peer_requests, total_bytes,
  total_requests, live, sum_bytes, sum_requests, bucket_start, charge_in, charge, spent, get_spend,
  has_spend, set_spend, forget_idle, over_budget, refuse, admit, reserve_intake,
}
use ipfs_node.Intake.Window.{
  live-live, requests-charge, bytes-charge, requests_fall, requests-not_spent, bucket_start_bounds,
}

abbrev pub Peers : Type 0
Peers = List (Text × Spend)

pub get_spend-set_spend :
    (k j : Text) (v : Spend) (m : Peers)
    → get_spend j (set_spend k v m) ≡ (if text_eq k j then v else get_spend j m)
unfolding get_spend set_spend
get_spend-set_spend k j v [] = refl
get_spend-set_spend k j v ((i, s) ∷ m) =
    ground (arith, get_spend-set_spend k j v m, text_eq_iff k j, text_eq_iff i k, text_eq_iff i j)

-- What one peer's window holds at a time.
abbrev pub requests_at : ℕ → Text → Budget → ℕ
requests_at u k b = sum_requests (live u (get_spend k b.per_peer))

abbrev pub bytes_at : ℕ → Text → Budget → ℕ
bytes_at u k b = sum_bytes (live u (get_spend k b.per_peer))

-- Every peer's window holds at most the allowance from a time on.
abbrev pub Bounded : ℕ → Peers → Type 0
Bounded last = All (λ e. (u : ℕ) → last ≤ u → sum_requests (live u e.1) ≤ per_peer_requests)

pub Bounded-get_spend :
    (last u : ℕ) (k : Text) (m : Peers)
    → Bounded last m
    → last ≤ u
    → sum_requests (live u (get_spend k m)) ≤ per_peer_requests
unfolding get_spend live sum_requests
Bounded-get_spend last u k [] h l = omega arith
Bounded-get_spend last u k ((j, s) ∷ m) h l = elim (Bool-cases (text_eq j k)) [
  | inl e ↦ rw e (h.0 u l)
  | inr e ↦ rw e (Bounded-get_spend last u k m h.1 l)
]

pub Bounded-later : (t u : ℕ) (m : Peers) → t ≤ u → Bounded t m → Bounded u m
Bounded-later t u [] h b = tt
Bounded-later t u (e ∷ m) h b = ((λ v l. b.0 v (omega arith)), Bounded-later t u m h b.1)

pub Bounded-set_spend :
    (last : ℕ) (k : Text) (v : Spend) (m : Peers)
    → ((u : ℕ) → last ≤ u → sum_requests (live u v) ≤ per_peer_requests)
    → Bounded last m
    → Bounded last (set_spend k v m)
unfolding set_spend
Bounded-set_spend last k v [] h b = (h, tt)
Bounded-set_spend last k v ((j, s) ∷ m) h b = elim (Bool-cases (text_eq j k)) [
  | inl e ↦ rw e (h, b.1)
  | inr e ↦ rw e (b.0, Bounded-set_spend last k v m h b.1)
]

pub Bounded-forget_idle : (now : ℕ) (m : Peers) → Bounded now m → Bounded now (forget_idle now m)
unfolding forget_idle
Bounded-forget_idle now [] b = tt
Bounded-forget_idle now ((k, s) ∷ m) b = elim (Bool-cases (spent now s)) [
  | inl e ↦ rw e ((λ u l. rw (live-live now u s l) (b.0 u l)), Bounded-forget_idle now m b.1)
  | inr e ↦ rw e (Bounded-forget_idle now m b.1)
]

-- What is forgotten held nothing.
pub requests-forget_idle :
    (now u n : ℕ) (k : Text) (m : Peers)
    → now ≤ u
    → n ≤ sum_requests (live u (get_spend k m))
    → n ≤ sum_requests (live u (get_spend k (forget_idle now m)))
unfolding get_spend forget_idle
requests-forget_idle now u n k [] l h = h
requests-forget_idle now u n k ((j, s) ∷ m) l h = ground (
  arith,
  requests-forget_idle now u n k m l,
  live-live now u s l,
  requests-not_spent now s,
  requests_fall now u s l,
)

forget_idle_keeps :
    (now : ℕ) (k : Text) (m : Peers)
    → spent now (get_spend k m) ≡ true
    → get_spend k (forget_idle now m) ≡ live now (get_spend k m)
unfolding get_spend forget_idle spent
forget_idle_keeps now k [] h = refl
forget_idle_keeps now k ((j, s) ∷ m) h = ground (arith, forget_idle_keeps now k m)

spent-charge_in :
    (now fresh start bytes requests : ℕ) (s : Spend)
    → now < start + bucket_ms + window_ms
    → spent now (charge_in fresh start bytes requests s) ≡ true
unfolding spent charge_in
spent-charge_in now fresh start bytes requests [] h = ground arith
spent-charge_in now fresh start bytes requests (b ∷ bs) h =
    ground (arith, spent-charge_in now fresh start bytes requests bs h)

-- The window of the peer after an admission, whether or not idle peers were forgotten by it.
admitted_window :
    (peer : Text) (max_bytes now : ℕ) (b : Budget)
    → live now (get_spend peer (admit peer max_bytes now b).0.per_peer)
      ≡ live now (charge b.next_id now max_bytes 1 (get_spend peer b.per_peer))
unfolding admit
admitted_window peer max_bytes now b =
    let v = charge b.next_id now max_bytes 1 (get_spend peer b.per_peer) in
    let m = set_spend peer v b.per_peer in
    let found = get_spend-set_spend peer peer v b.per_peer in
    let same : get_spend peer m ≡ v = ground (arith, found, text_eq_iff peer peer) in
    elim (Bool-cases (ltb total_requests (length m))) [
      | inl e ↦
          rw
            (
              e,
              forget_idle_keeps now peer m (
                  rw same (
                    unfold charge in
                    spent-charge_in now b.next_id (bucket_start now) max_bytes 1 _
                      (omega (arith, bucket_start_bounds now)))),
              same,
            )
            (live-live now now v (omega arith))
      | inr e ↦ rw (e, same)
    ]

-- A granted reservation was within every budget, and charges its peer and the node for the largest
-- transfer it allows and for one request.
pub reserve_intake_within :
    (peer : Text) (max_bytes now : ℕ) (b : Budget) (r : Reservation)
    → (reserve_intake peer max_bytes now b).1 ≡ some r
    → let b' = (reserve_intake peer max_bytes now b).0 in
      (sum_bytes (live now b'.total) ≡ sum_bytes (live now b.total) + max_bytes)
      × (sum_requests (live now b'.total) ≡ sum_requests (live now b.total) + 1)
      × (bytes_at now peer b' ≡ bytes_at now peer b + max_bytes)
      × (requests_at now peer b' ≡ requests_at now peer b + 1)
      × (sum_bytes (live now b'.total) ≤ total_bytes)
      × (sum_requests (live now b'.total) ≤ total_requests)
      × (bytes_at now peer b' ≤ per_peer_bytes)
      × (requests_at now peer b' ≤ per_peer_requests)
unfolding reserve_intake over_budget
reserve_intake_within peer max_bytes now b r e = ground (
  arith,
  ap sum_bytes (admitted_window peer max_bytes now b),
  ap sum_requests (admitted_window peer max_bytes now b),
  total_of,
  bytes-charge now (suc b.next_id) now max_bytes 1 b.total,
  requests-charge now (suc b.next_id) now max_bytes 1 b.total,
  bytes-charge now b.next_id now max_bytes 1 (get_spend peer b.per_peer),
  requests-charge now b.next_id now max_bytes 1 (get_spend peer b.per_peer),
  bucket_start_bounds now,
)
  where
    total_of : (admit peer max_bytes now b).0.total ≡ charge (suc b.next_id) now max_bytes 1 b.total
    total_of = unfold admit in refl

pub pruned :
    (peer k : Text) (now u : ℕ) (m : Peers)
    → now ≤ u
    → live u (get_spend k (set_spend peer (live now (get_spend peer m)) m)) ≡ live u (get_spend k m)
pruned peer k now u m l = ground (
  arith,
  get_spend-set_spend peer k (live now (get_spend peer m)) m,
  text_eq_iff peer k,
  live-live now u (get_spend peer m) l,
)

-- A refused reservation charges nobody: from then on every window reads as before.
pub reserve_intake_refused :
    (peer : Text) (max_bytes now u : ℕ) (k : Text) (b : Budget)
    → (reserve_intake peer max_bytes now b).1 ≡ none
    → now ≤ u
    → let b' = (reserve_intake peer max_bytes now b).0 in
      (live u b'.total ≡ live u b.total)
      × (live u (get_spend k b'.per_peer) ≡ live u (get_spend k b.per_peer))
      × (b'.unsettled ≡ b.unsettled)
unfolding reserve_intake refuse
reserve_intake_refused peer max_bytes now u k b e l =
    elim (Bool-cases (over_budget now max_bytes (get_spend peer b.per_peer) b.total)) [
      | inr granted ↦ cc (e, granted)
      | inl over ↦ rw over (
        live-live now u b.total l,
        elim (Bool-cases (has_spend peer b.per_peer)) [
          | inl old ↦ rw old (pruned peer k now u b.per_peer l)
          | inr new ↦ rw new
        ],
        refl,
      )
    ]
