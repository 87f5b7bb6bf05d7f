-- ===== src/Placement/Tests.antt =====
-- The theorems on placement at a concrete network, with a concrete score.
use ipfs_node.Base.Sort.{sort, insert}
use ipfs_node.Base.Texts.{Text, text, text_eq, text_lt}
use ipfs_node.Base.{
  ℕ, ◌≡◌, ◌≢◌, ◌↔◌, refl, true, false, List, [], ◌∷◌, In, here, there, take, length,
}
use ipfs_node.Registry.{contains}
use ipfs_node.Placement.{
  PlacementTier, PlacementInput, place_file, rank_holders, ranks_before, unique, copies_for_age,
  copies_from, effective_copies, storage_targets, may_demote,
}
use ipfs_node.Placement.Agreement.{SameNetwork, place_file_agree, storage_targets_exactly}

-- A longer name scores higher.
abbrev toy_score : Text → Text → ℕ
toy_score peer cid = length peer

abbrev tiers : List PlacementTier
tiers = record { min_age_ms = 0; copies = 3 } ∷ record { min_age_ms = 100; copies = 2 } ∷ []

abbrev at_a : PlacementInput
at_a = record {
  cid = text "file";
  age_ms = 150;
  tiers = tiers;
  self_peer_id = text "a";
  peer_ids = text "bb" ∷ text "ccc" ∷ [];
}

abbrev at_c : PlacementInput
at_c = record {
  cid = text "file";
  age_ms = 150;
  tiers = tiers;
  self_peer_id = text "ccc";
  peer_ids = text "a" ∷ text "bb" ∷ text "bb" ∷ [];
}

same_nodes : SameNetwork at_a at_c
same_nodes = record {
  same_cid = refl;
  same_age = refl;
  same_tiers = refl;
  known = to;
  knows = from;
}
  where
    to :
        (p : Text)
        → In p (text "a" ∷ text "bb" ∷ text "ccc" ∷ [])
        → In p (text "ccc" ∷ text "a" ∷ text "bb" ∷ text "bb" ∷ [])
    to _ here = there here
    to _ (there here) = there (there here)
    to _ (there (there here)) = here
    to _ (there (there (there m))) = elim m [ ]

    from :
        (p : Text)
        → In p (text "ccc" ∷ text "a" ∷ text "bb" ∷ text "bb" ∷ [])
        → In p (text "a" ∷ text "bb" ∷ text "ccc" ∷ [])
    from _ here = there (there here)
    from _ (there here) = here
    from _ (there (there here)) = there here
    from _ (there (there (there here))) = there here
    from _ (there (there (there (there m)))) = elim m [ ]

placement_runs :
    ((place_file toy_score at_a).holders ≡ text "ccc" ∷ text "bb" ∷ [])
    × (may_demote (place_file toy_score at_a) ≡ true)
    × (may_demote (place_file toy_score at_c) ≡ false)
unfolding place_file rank_holders ranks_before sort insert unique copies_for_age copies_from
    effective_copies may_demote contains text_eq text_lt
placement_runs = (refl, refl, refl)

place_file_agree_example :
    ((place_file toy_score at_a).holders ≡ (place_file toy_score at_c).holders)
    × ((place_file toy_score at_a).copies ≡ (place_file toy_score at_c).copies)
    × ((place_file toy_score at_a).network_too_small
        ≡ (place_file toy_score at_c).network_too_small)
place_file_agree_example = place_file_agree toy_score at_a at_c same_nodes

storage_targets_exactly_example :
    In (text "bb") (storage_targets (place_file toy_score at_a) (text "a"))
    ↔ In (text "bb") (place_file toy_score at_a).holders × (text "bb" ≢ text "a")
storage_targets_exactly_example = storage_targets_exactly toy_score at_a (text "bb")

still_holder :
    In
      (text "ccc")
      (take 2 (rank_holders toy_score (text "file") (text "dddd" ∷ text "bb" ∷ text "ccc" ∷ [])))
unfolding rank_holders ranks_before sort insert text_lt
still_holder = there here
