-- ===== src/Claims/Invariant.antt =====
-- About `claimSpace` and the release of a claim (src/storage/reservation.ts) over a history of both.
use ipfs_node.Base.Int.{minus}
use ipfs_node.Base.{ℕ, ◌+◌, ◌≤◌, ◌≡◌, ◌↔◌, refl, true, List, [], ◌∷◌, if◌then◌else◌, arith, is_some}
use ipfs_node.Claims.{
  Claim, Claims, ClaimRequest, may_claim, claim_space, mark_released, release_claim, no_claims,
  check_disk_reserve,
}

pub data Event : Type 0 where
  claim : ClaimRequest → Event
  give_back : ℕ → Event

unfoldable pub step : Claims → Event → Claims
step c (claim request) = (claim_space c request).0
step c (give_back id) = release_claim id c

unfoldable pub run : Claims → List Event → Claims
run c [] = c
run c (e ∷ es) = run (step c e) es

-- The bytes of the claims that were not given back.
unfoldable pub outstanding : List Claim → ℕ
outstanding [] = 0
outstanding (k ∷ ks) = if k.released then outstanding ks else k.bytes + outstanding ks

mark_released-outstanding :
    (id : ℕ) (ks : List Claim)
    → outstanding (mark_released id ks).0 + (mark_released id ks).1 ≡ outstanding ks
unfolding outstanding mark_released
mark_released-outstanding id [] = omega arith
mark_released-outstanding id (k ∷ ks) = ground (arith, mark_released-outstanding id ks)

step-claimed :
    (c : Claims) (e : Event)
    → c.claimed ≡ outstanding c.granted
    → (step c e).claimed ≡ outstanding (step c e).granted
unfolding step claim_space release_claim outstanding
step-claimed c (claim request) h = ground (arith, h)
step-claimed c (give_back id) h = omega (arith, h, mark_released-outstanding id c.granted)

run-claimed :
    (c : Claims) (es : List Event)
    → c.claimed ≡ outstanding c.granted
    → (run c es).claimed ≡ outstanding (run c es).granted
unfolding run
run-claimed c [] h = h
run-claimed c (e ∷ es) h = run-claimed (step c e) es (step-claimed c e h)

may_claim-fits :
    (c : Claims) (request : ClaimRequest)
    → (may_claim c request ≡ true)
      ↔ (c.claimed + request.bytes + request.reserve_bytes ≤ request.available_bytes)
unfolding may_claim check_disk_reserve minus
may_claim-fits c request = (λ e. ground (arith, e), λ e. ground (arith, e))

granted_if :
    (c : Claims) (request : ClaimRequest) → is_some (claim_space c request).1 ≡ may_claim c request
unfolding claim_space
granted_if c request = ground arith

-- After any claims and any give-backs, however often each is repeated: the bytes promised are those of
-- the claims not given back, and a further claim is granted exactly if these, with its own, leave the
-- reserve of the free space.
pub claims_fit :
    (es : List Event) (request : ClaimRequest)
    → let c = run no_claims es in
      (c.claimed ≡ outstanding c.granted)
      × ((is_some (claim_space c request).1 ≡ true) ↔ (
          outstanding c.granted + request.bytes + request.reserve_bytes ≤ request.available_bytes))
unfolding outstanding
claims_fit es request =
    let c = run no_claims es in
    let promised = run-claimed no_claims es start in
    let fits = may_claim-fits c request in
    let same = granted_if c request in
    (
      promised,
      (
        (λ e. omega (arith, promised, fits.0 (cc (e, same)))),
        (λ e. cc (same, fits.1 (omega (arith, promised, e)))),
      ),
    )
  where
    start : 0 ≡ outstanding []
    start = refl
