-- ===== src/Replication/Quorum.antt =====
-- About the counts of a quorum report (src/storage/replication.ts).
use ipfs_node.Base.Texts.{Text, text_eq, text_eq_iff}
use ipfs_node.Base.{
  ℕ, ◌+◌, ◌≤◌, ◌≡◌, ◌≢◌, ◌↔◌, refl, sym, ap, subst, Bool, true, false, not, ◌&&◌, inl, inr, List,
  [], ◌∷◌, ◌++◌, arith, length, map, In, In-filter, All, Distinct, Bool-cases, filter,
  if◌then◌else◌, some,
}
use ipfs_node.Registry.{contains}
use ipfs_node.Registry.Ownership.{contains-In}
use ipfs_node.Placement.{storage_targets}
use ipfs_node.Placement.Agreement.{storage_targets_exactly}
use ipfs_node.Replication.{
  ReplicationPeer, ReplicateOptions, StoreAnswer, plain, answered, thrown, knows_peer,
  collect_peers, distinct_peers, peer_ids, ack_of, is_stored, nodes, placement_of, targets_of,
  first_attempts, quorum_report, replicate,
}

-- The peer answered that it pinned the file.
abbrev pub stored_by : StoreAnswer → Bool
stored_by (plain o) = is_stored (some o)
stored_by (answered r) = is_stored r.outcome
stored_by (thrown e) = false

outcome-ack_of :
    (p : ReplicationPeer) (a : StoreAnswer) → is_stored (ack_of p a).outcome ≡ stored_by a
unfolding ack_of
outcome-ack_of p (plain o) = refl
outcome-ack_of p (thrown e) = refl
outcome-ack_of p (answered r) = ground arith

count-acks :
    (ask : ReplicationPeer → StoreAnswer) (ps : List ReplicationPeer)
    → length (nodes (filter (λ a. is_stored a.outcome) (map (λ p. ack_of p (ask p)) ps)))
      ≡ length (filter (λ p. stored_by (ask p)) ps)
count-acks ask [] = refl
count-acks ask (p ∷ ps) = ground (arith, outcome-ack_of p (ask p), count-acks ask ps)

-- The addresses kept: one for each peer id, none of this node's own.
record Kept (self : Text) (ps : List ReplicationPeer) : Type 0 where
  distinct : Distinct (peer_ids ps)
  not_self : All (λ id. id ≢ self) (peer_ids ps)

All-snoc :
    (P : Text → Type 0) (ps : List ReplicationPeer) (p : ReplicationPeer)
    → All P (peer_ids ps)
    → P p.peer_id
    → All P (peer_ids (ps ++ p ∷ []))
All-snoc P [] p h k = (k, tt)
All-snoc P (q ∷ ps) p h k = (h.0, All-snoc P ps p h.1 k)

unknown_ne :
    (id : Text) (ps : List ReplicationPeer)
    → knows_peer id ps ≡ false
    → All (λ other. other ≢ id) (peer_ids ps)
unfolding knows_peer
unknown_ne id [] h = tt
unknown_ne id (p ∷ ps) h =
    ((λ e. ground (arith, text_eq_iff p.peer_id id)), unknown_ne id ps (ground arith))

Distinct-snoc :
    (ps : List ReplicationPeer) (p : ReplicationPeer)
    → Distinct (peer_ids ps)
    → All (λ other. other ≢ p.peer_id) (peer_ids ps)
    → Distinct (peer_ids (ps ++ p ∷ []))
Distinct-snoc [] p d h = (tt, tt)
Distinct-snoc (q ∷ ps) p d h =
    (All-snoc (λ id. q.peer_id ≢ id) ps p d.0 h.0, Distinct-snoc ps p d.1 h.1)

collect_peers-Kept :
    (self : Text) (found ps : List ReplicationPeer)
    → Kept self found
    → Kept self (collect_peers self found ps)
unfolding collect_peers
collect_peers-Kept self found [] k = k
collect_peers-Kept self found (p ∷ ps) k =
    elim (Bool-cases (not (text_eq p.peer_id self) && not (knows_peer p.peer_id found))) [
      | inl e ↦ rw e (
          collect_peers-Kept self (found ++ p ∷ []) ps (record {
            distinct = Distinct-snoc found p k.distinct (unknown_ne p.peer_id found (ground arith));
            not_self =
                All-snoc (λ id. id ≢ self) found p k.not_self
                  (λ q. ground (arith, text_eq_iff p.peer_id self));
          }))
      | inr e ↦ rw e (collect_peers-Kept self found ps k)
    ]

distinct_peers-Kept : (self : Text) (ps : List ReplicationPeer) → Kept self (distinct_peers ps self)
unfolding distinct_peers
distinct_peers-Kept self ps =
    collect_peers-Kept self [] ps (record { distinct = tt; not_self = tt })

Distinct-kept :
    (f : ReplicationPeer → Bool) (ps : List ReplicationPeer)
    → Distinct (peer_ids ps)
    → Distinct (peer_ids (filter f ps))
Distinct-kept f [] d = tt
Distinct-kept f (p ∷ ps) d = elim (Bool-cases (f p)) [
  | inl e ↦ rw e (All-kept (λ id. p.peer_id ≢ id) f ps d.0, Distinct-kept f ps d.1)
  | inr e ↦ rw e (Distinct-kept f ps d.1)
]
  where
    All-kept :
        (P : Text → Type 0) (g : ReplicationPeer → Bool) (qs : List ReplicationPeer)
        → All P (peer_ids qs)
        → All P (peer_ids (filter g qs))
    All-kept P g [] h = tt
    All-kept P g (q ∷ qs) h = elim (Bool-cases (g q)) [
      | inl e ↦ rw e (h.0, All-kept P g qs h.1)
      | inr e ↦ rw e (All-kept P g qs h.1)
    ]

when_true {ℓ} : {A : Type ℓ} (x y : A) (b : Bool) → b ≡ true → (if b then x else y) ≡ x
when_true x y true e = refl
when_true x y false e = ground arith

module _ (score : Text → Text → ℕ) where
  -- A peer that is asked is a designated holder and not this node.
  targets_of-In :
      (o : ReplicateOptions) (p : ReplicationPeer)
      → In p (targets_of score o)
      → In p.peer_id (placement_of score o).holders × (p.peer_id ≢ o.self_peer_id)
  unfolding targets_of placement_of
  targets_of-In o p m =
      let k =
        In-filter (λ q. contains q.peer_id (storage_targets (placement_of score o) o.self_peer_id))
          (distinct_peers o.peers o.self_peer_id) m in
      (storage_targets_exactly score _ p.peer_id).0
        (contains-In p.peer_id (storage_targets (placement_of score o) o.self_peer_id) k.1)

  targets_of-Distinct : (o : ReplicateOptions) → Distinct (peer_ids (targets_of score o))
  unfolding targets_of
  targets_of-Distinct o =
      Distinct-kept _ (distinct_peers o.peers o.self_peer_id)
        (distinct_peers-Kept o.self_peer_id o.peers).distinct

  -- An enabled node reports the quorum.
  pub replicate_on :
      (o : ReplicateOptions) → o.config.enabled ≡ true → replicate score o ≡ quorum_report score o
  unfolding replicate
  replicate_on o on = when_true _ _ o.config.enabled on

  pub report_counts :
      (o : ReplicateOptions)
      → let report = quorum_report score o in
        (report.acknowledged
          ≡ length (filter (λ p. stored_by (o.store p)) (targets_of score o)) + 1)
        × ((report.satisfied ≡ true) ↔ (report.required ≤ report.acknowledged))
  unfolding quorum_report first_attempts
  report_counts o = (
    ap (λ (n : ℕ). n + 1) (count-acks o.store (targets_of score o)),
    (λ h. ground arith, λ h. ground arith),
  )

  -- An enabled node counts, beside its own copy, exactly the peers that answered that they pinned the
  -- file; they were asked under different peer ids, each is a designated holder of the file, and none
  -- is the node itself. The upload is satisfied exactly if that count reaches the required number.
  pub quorum_is_honest :
      (o : ReplicateOptions)
      → o.config.enabled ≡ true
      → let report = replicate score o in
        (report.acknowledged
          ≡ length (filter (λ p. stored_by (o.store p)) (targets_of score o)) + 1)
        × Distinct (peer_ids (targets_of score o))
        × ((p : ReplicationPeer)
            → In p (targets_of score o)
            → In p.peer_id (placement_of score o).holders × (p.peer_id ≢ o.self_peer_id))
        × ((report.satisfied ≡ true) ↔ (report.required ≤ report.acknowledged))
  quorum_is_honest o on =
      let counts =
        subst
          (λ report.
            (report.acknowledged
              ≡ length (filter (λ p. stored_by (o.store p)) (targets_of score o)) + 1)
            × ((report.satisfied ≡ true) ↔ (report.required ≤ report.acknowledged)))
          (sym (replicate_on o on)) (report_counts o) in
      (counts.0, targets_of-Distinct o, targets_of-In o, counts.1)
