-- ===== src/Claims/Tests.antt =====
-- The theorem on claims at a concrete history: two claims, one given back twice.
use ipfs_node.Base.Int.{minus}
use ipfs_node.Base.{ℕ, ◌+◌, ◌≤◌, ◌≡◌, ◌↔◌, refl, true, some, List, [], ◌∷◌, is_some}
use ipfs_node.Claims.{
  ClaimRequest, may_claim, claim_space, mark_released, release_claim, no_claims, check_disk_reserve,
}
use ipfs_node.Claims.Invariant.{Event, claim, give_back, step, run, outstanding, claims_fit}

abbrev ask : ℕ → ClaimRequest
ask n = record { bytes = n; available_bytes = 100; reserve_bytes = 10 }

abbrev history : List Event
history = claim (ask 60) ∷ claim (ask 40) ∷ claim (ask 20) ∷ give_back 0 ∷ give_back 0 ∷ []

-- The second claim does not fit beside the first, and is refused.
claims_run :
    ((run no_claims history).claimed ≡ 20)
    × ((claim_space (run no_claims history) (ask 70)).1 ≡ some 2)
unfolding run step claim_space may_claim check_disk_reserve minus release_claim mark_released
claims_run = (refl, refl)

claims_fit_example :
    let c = run no_claims history in
    (c.claimed ≡ outstanding c.granted)
    × ((is_some (claim_space c (ask 70)).1 ≡ true) ↔ (outstanding c.granted + 70 + 10 ≤ 100))
claims_fit_example = claims_fit history (ask 70)
