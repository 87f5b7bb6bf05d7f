-- ===== src/Placement/Agreement.antt =====
-- About the holders that different nodes compute for one file (src/storage/placement.ts).
use ipfs_node.Base.Texts.{Text, text_eq, text_eq_iff}
use ipfs_node.Base.{
  ℕ, ◌≤◌, ◌≡◌, ◌≢◌, ◌↔◌, sym, ap, subst, Bool, false, not, List, ◌∷◌, arith, length, length-take,
  In, In-filter, filter-In, In-take, Distinct, Distinct-take, ◌∙◌,
}
use ipfs_node.Base.Sort.{In-sort}
use ipfs_node.Registry.Ownership.{In-contains}
use ipfs_node.Placement.{
  PlacementInput, place_file, rank_holders, unique, copies_for_age, effective_copies,
  storage_targets, may_demote,
}
use ipfs_node.Placement.Order.{
  In-unique, unique-In, unique-Distinct, rank_holders_unique, length-rank_holders,
  rank_holders-Distinct,
}

-- Two nodes that know the same network: each counts itself and its peers, in any order.
pub record SameNetwork (a b : PlacementInput) : Type 0 where
  pub same_cid : a.cid ≡ b.cid
  pub same_age : a.age_ms ≡ b.age_ms
  pub same_tiers : a.tiers ≡ b.tiers
  pub known : (p : Text) → In p (a.self_peer_id ∷ a.peer_ids) → In p (b.self_peer_id ∷ b.peer_ids)
  pub knows : (p : Text) → In p (b.self_peer_id ∷ b.peer_ids) → In p (a.self_peer_id ∷ a.peer_ids)

abbrev candidates : PlacementInput → List Text
candidates a = unique (a.self_peer_id ∷ a.peer_ids)

module _ (score : Text → Text → ℕ) where
  same_ranking :
      (a b : PlacementInput)
      → SameNetwork a b
      → rank_holders score a.cid (candidates a) ≡ rank_holders score b.cid (candidates b)
  same_ranking a b s =
      subst (λ c. rank_holders score a.cid (candidates a) ≡ rank_holders score c (candidates b))
        s.same_cid
        (rank_holders_unique score a.cid (candidates a) (candidates b) (unique-Distinct _)
          (unique-Distinct _) (λ p m. unique-In _ (s.known p (In-unique _ m)))
          (λ p m. unique-In _ (s.knows p (In-unique _ m))))

  same_size :
      (a b : PlacementInput) → SameNetwork a b → length (candidates a) ≡ length (candidates b)
  same_size a b s =
      sym (length-rank_holders score a.cid (candidates a))
      ∙ ap length (same_ranking a b s)
      ∙ length-rank_holders score b.cid (candidates b)

  -- Nodes that know the same network place a file alike: the same holders in the same order, as many
  -- of them, and the same verdict on whether the network is too small.
  pub place_file_agree :
      (a b : PlacementInput)
      → SameNetwork a b
      → ((place_file score a).holders ≡ (place_file score b).holders)
        × ((place_file score a).copies ≡ (place_file score b).copies)
        × ((place_file score a).network_too_small ≡ (place_file score b).network_too_small)
  unfolding place_file
  place_file_agree a b s =
      let n = same_size a b s in
      let r = same_ranking a b s in
      (
        rw (r, n, s.same_age, s.same_tiers),
        rw (n, s.same_age, s.same_tiers),
        rw (n, s.same_age, s.same_tiers),
      )

  some_candidate : (a : PlacementInput) → 1 ≤ length (candidates a)
  unfolding unique
  some_candidate a = omega arith

  length-holders :
      (a : PlacementInput) → length (place_file score a).holders ≡ (place_file score a).copies
  unfolding place_file effective_copies
  length-holders a = omega (
    arith,
    length-take (effective_copies (copies_for_age a.tiers a.age_ms) (length (candidates a)))
        (rank_holders score a.cid (candidates a)),
    length-rank_holders score a.cid (candidates a),
    some_candidate a,
  )

  copies_pos : (a : PlacementInput) → 1 ≤ (place_file score a).copies
  unfolding place_file effective_copies
  copies_pos a = omega arith

  holder_stays :
      (b : PlacementInput)
      → In b.self_peer_id (place_file score b).holders
      → may_demote (place_file score b) ≡ false
  unfolding may_demote place_file
  holder_stays b m = ground (arith, In-contains b.self_peer_id (place_file score b).holders m)

  -- A placement names as many holders as it has copies, and at least
  -- one; asked to drop its copy, none of those nodes does where it knows the same network.
  pub holders_keep :
      (a : PlacementInput)
      → (length (place_file score a).holders ≡ (place_file score a).copies)
        × (1 ≤ (place_file score a).copies)
        × ((b : PlacementInput)
            → SameNetwork a b
            → In b.self_peer_id (place_file score a).holders
            → may_demote (place_file score b) ≡ false)
  holders_keep a = (
    length-holders a,
    copies_pos a,
    λ b s m. holder_stays b (subst (λ hs. In b.self_peer_id hs) (place_file_agree a b s).0 m),
  )

  -- The nodes that are asked to store a file are the holders but for the asking node, which is never
  -- asked.
  pub storage_targets_exactly :
      (a : PlacementInput) (p : Text)
      → In p (storage_targets (place_file score a) a.self_peer_id)
        ↔ In p (place_file score a).holders × (p ≢ a.self_peer_id)
  unfolding storage_targets
  storage_targets_exactly a p =
      let hs = (place_file score a).holders in
      let test : Text → Bool = λ q. not (text_eq q a.self_peer_id) in
      (
        (λ m.
            let r = In-filter test hs m in
            (r.0, λ e. ground (arith, r.1, text_eq_iff p a.self_peer_id))),
        (λ r. filter-In test hs r.0 (ground (arith, text_eq_iff p a.self_peer_id, r.1))),
      )

  -- A holder is a known node.
  pub holder-known :
      (a : PlacementInput) (p : Text)
      → In p (place_file score a).holders
      → In p (a.self_peer_id ∷ a.peer_ids)
  unfolding place_file rank_holders
  holder-known a p m = In-unique _ (In-sort _ (candidates a) (In-take _ _ m))

  pub holders-Distinct : (a : PlacementInput) → Distinct (place_file score a).holders
  unfolding place_file
  holders-Distinct a =
      Distinct-take _ _ (rank_holders-Distinct score a.cid (candidates a) (unique-Distinct _))
