-- ===== src/Placement.antt =====
-- src/storage/placement.ts: which nodes hold a file. The score of a node for a CID is a prefix of a
-- SHA-256 digest, which node:crypto computes; it is the parameter `score`.
pub mod Order
pub mod Agreement
mod Tests
use ipfs_node.Base.Sort.{sort}
use ipfs_node.Base.Texts.{Text, text_eq, text_lt}
use ipfs_node.Base.{
  ℕ, suc, ◌+◌, ◌-◌, max, min, Bool, true, false, ◌&&◌, ◌||◌, not, Option, none, some, List, [], ◌∷◌,
  ltb, leb, ◌==◌, if◌then◌else◌, length, take, filter,
}
use ipfs_node.Registry.{contains}

pub record PlacementTier : Type 0 where
  pub min_age_ms : ℕ
  pub copies : ℕ

-- The loop over the tiers.
unfoldable pub copies_from : ℕ → List PlacementTier → ℕ → ℕ
copies_from copies [] age_ms = copies
copies_from copies (t ∷ ts) age_ms =
    copies_from (if leb t.min_age_ms age_ms then t.copies else copies) ts age_ms

-- `tiers[0]?.copies ?? 1`
abbrev first_copies : List PlacementTier → ℕ
first_copies [] = 1
first_copies (t ∷ ts) = t.copies

unfoldable pub copies_for_age : List PlacementTier → ℕ → ℕ
copies_for_age tiers age_ms = copies_from (first_copies tiers) tiers age_ms

unfoldable pub effective_copies : ℕ → ℕ → ℕ
effective_copies desired network_size = max 1 (min desired network_size)

-- `[...new Set(xs)]`: the first occurrences, in order.
unfoldable pub unique : List Text → List Text
unique [] = []
unique (x ∷ xs) = x ∷ filter (λ y. not (text_eq x y)) (unique xs)

pub record PlacementInput : Type 0 where
  pub cid : Text
  pub age_ms : ℕ
  pub tiers : List PlacementTier
  pub self_peer_id : Text
  pub peer_ids : List Text

pub record Placement : Type 0 where
  pub desired_copies : ℕ
  pub copies : ℕ
  pub holders : List Text
  pub self_is_holder : Bool
  pub network_too_small : Bool

unfoldable pub storage_targets : Placement → Text → List Text
storage_targets placement self = filter (λ p. not (text_eq p self)) placement.holders

unfoldable pub may_demote : Placement → Bool
may_demote placement = not placement.network_too_small && not placement.self_is_holder

module _ (score : Text → Text → ℕ) where
  -- The comparator of `rankHolders`: a negative answer for `(a, b)`.
  unfoldable pub ranks_before : Text → Text → Text → Bool
  ranks_before cid a b =
      ltb (score b cid) (score a cid) || (score a cid == score b cid && text_lt a b)

  unfoldable pub rank_holders : Text → List Text → List Text
  rank_holders cid peer_ids = sort (ranks_before cid) peer_ids

  unfoldable pub place_file : PlacementInput → Placement
  place_file input =
      let candidates = unique (input.self_peer_id ∷ input.peer_ids) in
      let desired = copies_for_age input.tiers input.age_ms in
      let copies = effective_copies desired (length candidates) in
      let holders = take copies (rank_holders input.cid candidates) in
      record {
        desired_copies = desired;
        copies = copies;
        holders = holders;
        self_is_holder = contains input.self_peer_id holders;
        network_too_small = leb (length candidates) desired;
      }
