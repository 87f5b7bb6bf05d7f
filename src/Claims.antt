-- ===== src/Claims.antt =====
-- src/storage/limits.ts and src/storage/reservation.ts: what an upload must pass before it starts. The
-- module variable `claimed` and the `released` flag that each claim closes over are the record Claims.
-- Byte counts are natural numbers; the differences of the source are integers there too.
pub mod Invariant
mod Tests
use ipfs_node.Base.Int.{ℤ, pos, minus, ltz}
use ipfs_node.Base.{
  ℕ, suc, ◌+◌, ◌-◌, Bool, true, false, ◌&&◌, not, Option, none, some, List, [], ◌∷◌, ◌++◌, ltb, leb,
  ◌==◌, if◌then◌else◌, get_or, length,
}

-- `ConcurrencyLimiter`
pub record ConcurrencyLimiter : Type 0 where
  pub in_flight : ℕ
  pub max_concurrent : ℕ

unfoldable pub try_acquire : ConcurrencyLimiter → ConcurrencyLimiter × Bool
try_acquire l =
    if leb l.max_concurrent l.in_flight
    then (l, false)
    else (record l { in_flight = suc l.in_flight }, true)

unfoldable pub release_slot : ConcurrencyLimiter → ConcurrencyLimiter
release_slot l = if ltb 0 l.in_flight then record l { in_flight = l.in_flight - 1 } else l

pub record DiskReserveInput : Type 0 where
  pub available_bytes : ℤ
  pub reserve_bytes : ℕ
  pub requested_bytes : Option ℕ

-- `checkDiskReserve(…).allowed`
unfoldable pub check_disk_reserve : DiskReserveInput → Bool
check_disk_reserve input =
    not
      (ltz (minus input.available_bytes (get_or input.requested_bytes 0)) (pos input.reserve_bytes))

-- `checkRequestSize(…).allowed`
unfoldable pub check_request_size : Option ℕ → ℕ → Bool
check_request_size none max_request = true
check_request_size (some declared) max_request = leb declared max_request

-- `RequestSizeBudget`; `consume` answers whether it did not throw.
pub record RequestSizeBudget : Type 0 where
  pub consumed : ℕ
  pub max_request_size : ℕ

unfoldable pub consume : ℕ → RequestSizeBudget → RequestSizeBudget × Bool
consume bytes b =
    (record b { consumed = b.consumed + bytes }, leb (b.consumed + bytes) b.max_request_size)

pub record Claim : Type 0 where
  pub id : ℕ
  pub bytes : ℕ
  pub released : Bool

-- `next` numbers the claims that were granted.
pub record Claims : Type 0 where
  pub claimed : ℕ
  pub next : ℕ
  pub granted : List Claim

pub record ClaimRequest : Type 0 where
  pub bytes : ℕ
  pub available_bytes : ℕ
  pub reserve_bytes : ℕ

unfoldable pub may_claim : Claims → ClaimRequest → Bool
may_claim c request = check_disk_reserve (record {
  available_bytes = minus (pos request.available_bytes) c.claimed;
  reserve_bytes = request.reserve_bytes;
  requested_bytes = some request.bytes;
})

-- `claimSpace`: the number of the claim, or none.
unfoldable pub claim_space : Claims → ClaimRequest → Claims × Option ℕ
claim_space c request =
    if may_claim c request
    then (
      record {
        claimed = c.claimed + request.bytes;
        next = suc c.next;
        granted = record { id = c.next; bytes = request.bytes; released = false } ∷ c.granted;
      },
      some c.next,
    )
    else (c, none)

-- The claim with the number is marked; its bytes if it was not marked before.
unfoldable pub mark_released : ℕ → List Claim → List Claim × ℕ
mark_released id [] = ([], 0)
mark_released id (k ∷ ks) =
    let rest = mark_released id ks in
    if k.id == id
    then (record k { released = true } ∷ ks, if k.released then 0 else k.bytes)
    else (k ∷ rest.0, rest.1)

-- `claim.release()`
unfoldable pub release_claim : ℕ → Claims → Claims
release_claim id c =
    let (granted, bytes) = mark_released id c.granted in
    record { claimed = c.claimed - bytes; next = c.next; granted = granted }

-- `resetClaims`
unfoldable pub reset_claims : Claims → Claims
reset_claims c = record { claimed = 0; next = c.next; granted = c.granted }

abbrev pub no_claims : Claims
no_claims = record { claimed = 0; next = 0; granted = [] }
