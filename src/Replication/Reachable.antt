-- ===== src/Replication/Reachable.antt =====
-- About the number of acknowledgements that a quorum requires (src/storage/replication.ts).
use ipfs_node.Base.Texts.{Text, text_eq, text_eq_iff}
use ipfs_node.Base.{
  ℕ, suc, ◌≤◌, ◌<◌, ◌≡◌, ◌≢◌, refl, sym, subst, Bool, true, not, ◌⊎◌, inl, inr, List, [], ◌∷◌,
  arith, length, In, here, there, filter-In, In-map, All-In, Distinct, Bool-cases, filter, ap,
}
use ipfs_node.Registry.{contains}
use ipfs_node.Registry.Ownership.{In-contains}
use ipfs_node.Placement.{storage_targets}
use ipfs_node.Placement.Agreement.{
  storage_targets_exactly, holders_keep, holder-known, holders-Distinct,
}
use ipfs_node.Replication.{
  ReplicationPeer, ReplicateOptions, required_acks, distinct_peers, peer_ids, placement_of,
  targets_of, replicate, quorum_report,
}
use ipfs_node.Replication.Quorum.{stored_by, report_counts, replicate_on}

without : Text → List Text → List Text
without x = filter (λ y. not (text_eq x y))

length-without : (x : Text) (ys : List Text) → In x ys → length (without x ys) < length ys
unfolding without
length-without x [] m = elim m [ ]
length-without x (_ ∷ ys) here = ground (arith, text_eq_iff x x, fewer ys)
  where
    fewer : (zs : List Text) → length (filter (λ y. not (text_eq x y)) zs) ≤ length zs
    fewer [] = omega arith
    fewer (z ∷ zs) = ground (arith, fewer zs)
length-without x (y ∷ ys) (there m) = ground (arith, length-without x ys m)

-- Distinct elements of a list are no more than its length.
length-Distinct-le :
    (xs ys : List Text) → Distinct xs → ((a : Text) → In a xs → In a ys) → length xs ≤ length ys
unfolding without
length-Distinct-le [] ys d f = omega arith
length-Distinct-le (x ∷ xs) ys d f = omega (
  arith,
  length-without x ys (f x here),
  length-Distinct-le xs (without x ys) d.1 (λ a m.
      filter-In (λ y. not (text_eq x y)) ys (f a (there m))
        (ground (arith, text_eq_iff x a, All-In _ xs d.0 m))),
)

behind_id :
    (id : Text) (ps : List ReplicationPeer)
    → In id (peer_ids ps)
    → (p : ReplicationPeer) × In p ps × (p.peer_id ≡ id)
behind_id id [] m = elim m [ ]
behind_id id (q ∷ ps) m = elim (head_or_tail m) [
  | inl e ↦ (q, here, sym e)
  | inr k ↦ let (p, n, e) = behind_id id ps k in (p, there n, e)
]
  where
    head_or_tail : {d : Text} {ds : List Text} → In id (d ∷ ds) → (id ≡ d) ⊎ In id ds
    head_or_tail here = inl refl
    head_or_tail (there k) = inr k

all_pass {ℓ} :
    {A : Type ℓ} (f : A → Bool) (xs : List A)
    → ((a : A) → In a xs → f a ≡ true)
    → length (filter f xs) ≡ length xs
all_pass f [] h = refl
all_pass f (x ∷ xs) h = rw (h x here) (ap suc (all_pass f xs (λ a m. h a (there m))))

tail-In : {a x : Text} {xs : List Text} → In a (x ∷ xs) → a ≢ x → In a xs
tail-In here n = absurd (n refl)
tail-In (there m) n = m

length-ids : (ps : List ReplicationPeer) → length (peer_ids ps) ≡ length ps
length-ids [] = refl
length-ids (p ∷ ps) = ap suc (length-ids ps)

module _ (score : Text → Text → ℕ) where
  -- Every holder but this node is among the peers that are asked.
  holder-asked :
      (o : ReplicateOptions) (h : Text)
      → In h (placement_of score o).holders
      → In h (o.self_peer_id ∷ peer_ids (targets_of score o))
  unfolding targets_of placement_of
  holder-asked o h m = elim (Bool-cases (text_eq h o.self_peer_id)) [
    | inl e ↦
        subst (λ x. In x (o.self_peer_id ∷ peer_ids (targets_of score o)))
          (sym ((text_eq_iff h o.self_peer_id).0 e)) here
    | inr e ↦
        let ne : h ≢ o.self_peer_id = λ q. ground (arith, text_eq_iff h o.self_peer_id) in
        let (p, k, q) =
          behind_id h (distinct_peers o.peers o.self_peer_id)
            (tail-In (holder-known score _ h m) ne) in
        let wanted =
          In-contains h (storage_targets (placement_of score o) o.self_peer_id)
            ((storage_targets_exactly score _ h).1 (m, ne)) in
        there (
          subst (λ x. In x (peer_ids (targets_of score o))) q
            (In-map (λ r. r.peer_id) (targets_of score o)
              (filter-In _ (distinct_peers o.peers o.self_peer_id) k (
                subst
                  (λ x. contains x (storage_targets (placement_of score o) o.self_peer_id) ≡ true)
                  (sym q) wanted))))
  ]

  copies_of : (o : ReplicateOptions) → 1 ≤ (placement_of score o).copies
  unfolding placement_of
  copies_of o = (holders_keep score _).1

  report_needs :
      (o : ReplicateOptions)
      → (1 ≤ (quorum_report score o).required)
        × ((quorum_report score o).required ≤ (quorum_report score o).copies)
  unfolding quorum_report required_acks
  report_needs o = let pos = copies_of o in (omega arith, omega (arith, pos))

  copies-le :
      (o : ReplicateOptions) → (placement_of score o).copies ≤ suc (length (targets_of score o))
  unfolding placement_of
  copies-le o =
      subst (λ n. n ≤ suc (length (targets_of score o))) (holders_keep score _).0
        (subst (λ n. (length (placement_of score o).holders) ≤ suc n)
          (length-ids (targets_of score o))
          (length-Distinct-le (placement_of score o).holders
            (o.self_peer_id ∷ peer_ids (targets_of score o)) (holders-Distinct score _)
            (holder-asked o)))

  all_answered :
      (o : ReplicateOptions)
      → (quorum_report score o).required ≤ (quorum_report score o).copies
      → ((p : ReplicationPeer) → In p (targets_of score o) → stored_by (o.store p) ≡ true)
      → (quorum_report score o).satisfied ≡ true
  unfolding quorum_report
  all_answered o le h =
      let counts = report_counts score o in
      let asked = all_pass (λ p. stored_by (o.store p)) (targets_of score o) h in
      counts.1.1 (omega (arith, le, counts.0, asked, copies-le o))

  -- The required number is at least one and no more than the copies that can exist, and where every
  -- peer that is asked pins the file, the upload is satisfied.
  pub quorum_is_reachable :
      (o : ReplicateOptions)
      → o.config.enabled ≡ true
      → let report = replicate score o in
        (1 ≤ report.required)
        × (report.required ≤ report.copies)
        × (((p : ReplicationPeer) → In p (targets_of score o) → stored_by (o.store p) ≡ true)
            → report.satisfied ≡ true)
  quorum_is_reachable o on =
      let needs = report_needs o in
      subst
        (λ report.
          (1 ≤ report.required)
          × (report.required ≤ report.copies)
          × (((p : ReplicationPeer) → In p (targets_of score o) → stored_by (o.store p) ≡ true)
              → report.satisfied ≡ true))
        (sym (replicate_on score o on)) (needs.0, needs.1, λ h. all_answered o needs.1 h)
