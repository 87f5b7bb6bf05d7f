-- ===== src/Intake/History.antt =====
-- About the request budgets over a history of reservations and settlements
-- (src/storage/intakeBudget.ts).
use ipfs_node.Base.Texts.{Text, text_eq, text_eq_iff}
use ipfs_node.Base.Int.{ℤ, pos_part}
use ipfs_node.Base.{
  ℕ, suc, ◌+◌, ◌≤◌, ◌<◌, ◌≡◌, refl, inl, inr, false, Option, none, some, List, [], ◌∷◌, arith, map,
  Bool-cases, Option-cases, ltb, leb, if◌then◌else◌, length, ◌&&◌,
}
use ipfs_node.Intake.{
  Reservation, Budget, window_ms, per_peer_requests, total_requests, reset_intake_budget, live,
  sum_requests, charge, correct, get_spend, has_spend, set_spend, over_budget, refuse, admit,
  reserve_intake, take_reservation, settle,
}
use ipfs_node.Intake.Window.{
  live-live, requests-charge, requests_fall, requests-correct, bucket_start_bounds,
}
use ipfs_node.Intake.Limits.{
  Peers, Bounded, get_spend-set_spend, Bounded-get_spend, Bounded-later, Bounded-set_spend,
  Bounded-forget_idle, requests-forget_idle, pruned,
}

pub data Event : Type 0 where
  reserves : Text → ℕ → ℕ → Event
  settles : ℕ → ℤ → Event

-- A granted reservation: who, and when.
abbrev pub Grant : Type 0
Grant = Text × ℕ

pub record Trace : Type 0 where
  pub budget : Budget
  pub grants : List Grant

add_grant : Option Reservation → Grant → List Grant → List Grant
add_grant none g gs = gs
add_grant (some r) g gs = g ∷ gs

unfoldable pub step : Event → Trace → Trace
unfolding add_grant
step (reserves peer max_bytes now) t =
    let r = reserve_intake peer max_bytes now t.budget in
    record { budget = r.0; grants = add_grant r.1 (peer, now) t.grants }
step (settles id bytes) t = record t { budget = settle id bytes t.budget }

unfoldable pub run : List Event → Trace → Trace
run [] t = t
run (e ∷ es) t = run es (step e t)

abbrev pub start : Trace
start = record { budget = reset_intake_budget; grants = [] }

-- The clock does not go back between reservations.
abbrev pub Timed : ℕ → List Event → Type 0
Timed last [] = Unit
Timed last (reserves peer max_bytes now ∷ es) = (last ≤ now) × Timed now es
Timed last (settles id bytes ∷ es) = Timed last es

abbrev pub last_time : ℕ → List Event → ℕ
last_time last [] = last
last_time last (reserves peer max_bytes now ∷ es) = last_time now es
last_time last (settles id bytes ∷ es) = last_time last es

-- Grants of the hour before `u`.
unfoldable pub recent : ℕ → List Grant → ℕ
recent u [] = 0
recent u ((k, t) ∷ gs) = (if leb u (t + window_ms) then 1 else 0) + recent u gs

-- Those of one peer.
unfoldable pub recent_of : Text → ℕ → List Grant → ℕ
recent_of p u [] = 0
recent_of p u ((k, t) ∷ gs) =
    (if text_eq k p && leb u (t + window_ms) then 1 else 0) + recent_of p u gs

record Inv (last : ℕ) (t : Trace) : Type 0 where
  total_covers : (u : ℕ) → last ≤ u → recent u t.grants ≤ sum_requests (live u t.budget.total)
  total_bounded : (u : ℕ) → last ≤ u → sum_requests (live u t.budget.total) ≤ total_requests
  peers_cover :
      (p : Text) (u : ℕ)
      → last ≤ u
      → recent_of p u t.grants ≤ sum_requests (live u (get_spend p t.budget.per_peer))
  peers_bounded : Bounded last t.budget.per_peer

start-Inv : Inv 0 start
unfolding reset_intake_budget recent recent_of sum_requests live get_spend
start-Inv = record {
  total_covers = λ u l. omega arith;
  total_bounded = λ u l. omega arith;
  peers_cover = λ p u l. omega arith;
  peers_bounded = tt;
}

-- The peers' windows after a reservation is admitted.
abbrev charged : Text → ℕ → ℕ → Budget → Peers
charged peer max_bytes now b =
    set_spend peer (charge b.next_id now max_bytes 1 (get_spend peer b.per_peer)) b.per_peer

charged_bound :
    (peer : Text) (max_bytes now : ℕ) (b : Budget) (u : ℕ)
    → sum_requests (live now (get_spend peer b.per_peer)) < per_peer_requests
    → now ≤ u
    → sum_requests (live u (charge b.next_id now max_bytes 1 (get_spend peer b.per_peer)))
      ≤ per_peer_requests
charged_bound peer max_bytes now b u h l = ground (
  arith,
  requests-charge u b.next_id now max_bytes 1 (get_spend peer b.per_peer) l,
  requests_fall now u (get_spend peer b.per_peer) l,
)

charged_cover :
    (peer : Text) (max_bytes now : ℕ) (t : Trace) (p : Text) (u : ℕ)
    → now ≤ u
    → recent_of p u t.grants ≤ sum_requests (live u (get_spend p t.budget.per_peer))
    → recent_of p u ((peer, now) ∷ t.grants)
      ≤ sum_requests (live u (get_spend p (charged peer max_bytes now t.budget)))
unfolding recent_of
charged_cover peer max_bytes now t p u l h = ground (
  arith,
  get_spend-set_spend peer p
      (charge t.budget.next_id now max_bytes 1 (get_spend peer t.budget.per_peer))
      t.budget.per_peer,
  text_eq_iff peer p,
  requests-charge u t.budget.next_id now max_bytes 1 (get_spend peer t.budget.per_peer) l,
  bucket_start_bounds now,
)

refuse-Inv :
    (peer : Text) (now last : ℕ) (t : Trace)
    → last ≤ now
    → Inv last t
    → Inv now (record t { budget = refuse peer now t.budget })
unfolding refuse
refuse-Inv peer now last t h v = record {
  total_covers = λ u l. rw (live-live now u t.budget.total l) (v.total_covers u (omega arith));
  total_bounded = λ u l. rw (live-live now u t.budget.total l) (v.total_bounded u (omega arith));
  peers_cover = λ p u l. elim (Bool-cases (has_spend peer t.budget.per_peer)) [
    | inl old ↦ rw (old, pruned peer p now u t.budget.per_peer l) (v.peers_cover p u (omega arith))
    | inr new ↦ rw new (v.peers_cover p u (omega arith))
  ];
  peers_bounded =
      let before = Bounded-later last now t.budget.per_peer h v.peers_bounded in
      elim (Bool-cases (has_spend peer t.budget.per_peer)) [
        | inl old ↦ rw old (
            Bounded-set_spend now peer _ t.budget.per_peer
              (λ u l.
                rw (live-live now u (get_spend peer t.budget.per_peer) l)
                  (Bounded-get_spend now u peer t.budget.per_peer before l))
              before)
        | inr new ↦ rw new before
      ];
}

admit-Inv :
    (peer : Text) (max_bytes now last : ℕ) (t : Trace)
    → last ≤ now
    → over_budget now max_bytes (get_spend peer t.budget.per_peer) t.budget.total ≡ false
    → Inv last t
    → Inv now
        (record { budget = (admit peer max_bytes now t.budget).0; grants = (peer, now) ∷ t.grants })
unfolding admit over_budget recent
admit-Inv peer max_bytes now last t h within v = record {
  total_covers = λ u l. ground (
    arith,
    requests-charge u (suc t.budget.next_id) now max_bytes 1 t.budget.total l,
    bucket_start_bounds now,
    v.total_covers u,
  );
  total_bounded = λ u l. ground (
    arith,
    requests-charge u (suc t.budget.next_id) now max_bytes 1 t.budget.total l,
    requests_fall now u t.budget.total l,
  );
  peers_cover = λ p u l.
      let covered = charged_cover peer max_bytes now t p u l (v.peers_cover p u (omega arith)) in
      elim (Bool-cases (ltb total_requests (length (charged peer max_bytes now t.budget)))) [
        | inl e ↦
            rw e (requests-forget_idle now u _ p (charged peer max_bytes now t.budget) l covered)
        | inr e ↦ rw e covered
      ];
  peers_bounded =
      let bounded =
        Bounded-set_spend now peer _ t.budget.per_peer
          (λ u l. charged_bound peer max_bytes now t.budget u (ground arith) l)
          (Bounded-later last now t.budget.per_peer h v.peers_bounded) in
      elim (Bool-cases (ltb total_requests (length (charged peer max_bytes now t.budget)))) [
        | inl e ↦ rw e (Bounded-forget_idle now (charged peer max_bytes now t.budget) bounded)
        | inr e ↦ rw e bounded
      ];
}

-- What a settlement does to the windows of the peers.
abbrev corrected : ℕ → ℕ → ℕ → Peers → Peers
corrected id bytes max_bytes = map (λ e. (e.0, correct id bytes max_bytes e.1))

requests-corrected :
    (id bytes max_bytes u : ℕ) (p : Text) (m : Peers)
    → sum_requests (live u (get_spend p (corrected id bytes max_bytes m)))
      ≡ sum_requests (live u (get_spend p m))
unfolding get_spend
requests-corrected id bytes max_bytes u p [] = refl
requests-corrected id bytes max_bytes u p ((j, s) ∷ m) =
    ground
      (arith, requests-corrected id bytes max_bytes u p m, requests-correct u id bytes max_bytes s)

Bounded-corrected :
    (id bytes max_bytes last : ℕ) (m : Peers)
    → Bounded last m
    → Bounded last (corrected id bytes max_bytes m)
Bounded-corrected id bytes max_bytes last [] b = tt
Bounded-corrected id bytes max_bytes last ((j, s) ∷ m) b = (
  (λ u l. rw (requests-correct u id bytes max_bytes s) (b.0 u l)),
  Bounded-corrected id bytes max_bytes last m b.1,
)

settle-Inv :
    (id : ℕ) (bytes : ℤ) (last : ℕ) (t : Trace)
    → Inv last t
    → Inv last (record t { budget = settle id bytes t.budget })
unfolding settle
settle-Inv id bytes last t v = elim (Option-cases (take_reservation id t.budget.unsettled)) [
  | inl e ↦ rw (e, settle) v
  | inr (q, e) ↦
      rw (e, settle)
        (record {
          total_covers = λ u l.
              rw (requests-correct u q.0.total_bucket (pos_part bytes) q.0.max_bytes t.budget.total)
                (v.total_covers u l);
          total_bounded = λ u l.
              rw (requests-correct u q.0.total_bucket (pos_part bytes) q.0.max_bytes t.budget.total)
                (v.total_bounded u l);
          peers_cover = λ p u l.
              rw
                (requests-corrected q.0.peer_bucket (pos_part bytes) q.0.max_bytes u p
                  t.budget.per_peer)
                (v.peers_cover p u l);
          peers_bounded =
              Bounded-corrected q.0.peer_bucket (pos_part bytes) q.0.max_bytes last
                t.budget.per_peer v.peers_bounded;
        })
]

reserve-Inv :
    (peer : Text) (max_bytes now last : ℕ) (t : Trace)
    → last ≤ now
    → Inv last t
    → Inv now (step (reserves peer max_bytes now) t)
unfolding step reserve_intake
reserve-Inv peer max_bytes now last t h v =
    elim (Bool-cases
      (over_budget now max_bytes (get_spend peer t.budget.per_peer) t.budget.total)) [
        | inl e ↦ rw e (refuse-Inv peer now last t h v)
        | inr e ↦ rw e (admit-Inv peer max_bytes now last t h e v)
      ]

run-Inv :
    (es : List Event) (last : ℕ) (t : Trace)
    → Timed last es
    → Inv last t
    → Inv (last_time last es) (run es t)
unfolding run
run-Inv [] last t h v = v
run-Inv (reserves peer max_bytes now ∷ es) last t h v =
    run-Inv es now (step (reserves peer max_bytes now) t) h.1
      (reserve-Inv peer max_bytes now last t h.0 v)
run-Inv (settles id bytes ∷ es) last t h v =
    run-Inv es last (step (settles id bytes) t) h (unfold step in settle-Inv id bytes last t v)

-- Over any history whose clock does not go back, however its transfers settle, and at any time since
-- the last reservation: the node granted at most 5000 reservations in the hour before, and no peer got
-- more than 500 of them.
pub grants_within_hour :
    (es : List Event) (p : Text) (u : ℕ)
    → Timed 0 es
    → last_time 0 es ≤ u
    → (recent u (run es start).grants ≤ total_requests)
      × (recent_of p u (run es start).grants ≤ per_peer_requests)
grants_within_hour es p u h l =
    let v = run-Inv es 0 start h start-Inv in
    (
      omega (arith, v.total_covers u l, v.total_bounded u l),
      omega (
        arith,
        v.peers_cover p u l,
        Bounded-get_spend (last_time 0 es) u p (run es start).budget.per_peer v.peers_bounded l,
      ),
    )
