-- ===== src/Intake.antt =====
-- src/storage/intakeBudget.ts: the rolling budget of cached copies. Times are milliseconds.
-- A bucket is an object that the window and a reservation share, so it carries an identity; a
-- reservation whose `settled` flag is false stands in `unsettled`. `now - INTAKE_WINDOW_MS < end` is
-- written `now < end + window`, so that nothing falls below zero.
pub mod Window
pub mod Limits
pub mod History
pub mod Tests
use ipfs_node.Base.Texts.{Text, text_eq}
use ipfs_node.Base.Int.{ℤ, pos_part}
use ipfs_node.Base.{
  ℕ, suc, ◌+◌, ◌-◌, ◌*◌, ◌/◌, ◌^◌, Bool, true, false, ◌&&◌, ◌||◌, not, Option, none, some, List, [],
  ◌∷◌, ◌++◌, map, ltb, leb, ◌==◌, filter, length, if◌then◌else◌,
}

-- `INTAKE_WINDOW_MS` and `INTAKE_WINDOW_MS / INTAKE_BUCKETS`
abbrev pub window_ms : ℕ
window_ms = 3600000

abbrev pub bucket_ms : ℕ
bucket_ms = 600000

abbrev pub per_peer_bytes : ℕ
per_peer_bytes = 4 * 1024 ^ 3

abbrev pub per_peer_requests : ℕ
per_peer_requests = 500

abbrev pub total_bytes : ℕ
total_bytes = 16 * 1024 ^ 3

abbrev pub total_requests : ℕ
total_requests = 5000

pub record Bucket : Type 0 where
  pub id : ℕ
  pub started_at : ℕ
  pub bytes : ℕ
  pub requests : ℕ

-- The buckets of a `Spend`.
abbrev pub Spend : Type 0
Spend = List Bucket

pub record Reservation : Type 0 where
  pub id : ℕ
  pub peer_bucket : ℕ
  pub total_bucket : ℕ
  pub max_bytes : ℕ

pub record Budget : Type 0 where
  pub per_peer : List (Text × Spend)
  pub total : Spend
  pub unsettled : List Reservation
  pub next_id : ℕ

unfoldable pub reset_intake_budget : Budget
reset_intake_budget = record { per_peer = []; total = []; unsettled = []; next_id = 0 }

unfoldable pub is_live : ℕ → Bucket → Bool
is_live now b = ltb now (b.started_at + bucket_ms + window_ms)

unfoldable pub live : ℕ → Spend → Spend
unfolding is_live
live now = filter (is_live now)

unfoldable pub sum_bytes : Spend → ℕ
sum_bytes [] = 0
sum_bytes (b ∷ bs) = b.bytes + sum_bytes bs

unfoldable pub sum_requests : Spend → ℕ
sum_requests [] = 0
sum_requests (b ∷ bs) = b.requests + sum_requests bs

unfoldable pub bucket_start : ℕ → ℕ
bucket_start now = now / bucket_ms * bucket_ms

abbrev pub add_to : Bucket → ℕ → ℕ → Bucket
add_to b bytes requests = record b { bytes = b.bytes + bytes; requests = b.requests + requests }

-- `live.find(...)`, or a fresh bucket behind the others; then the two additions.
unfoldable pub charge_in : ℕ → ℕ → ℕ → ℕ → Spend → Spend
charge_in fresh start bytes requests [] =
    record { id = fresh; started_at = start; bytes = bytes; requests = requests } ∷ []
charge_in fresh start bytes requests (b ∷ bs) =
    if b.started_at == start
    then add_to b bytes requests ∷ bs
    else b ∷ charge_in fresh start bytes requests bs

-- The identity of the bucket that `charge_in` changes or makes.
unfoldable pub charged_id : ℕ → ℕ → Spend → ℕ
charged_id fresh start [] = fresh
charged_id fresh start (b ∷ bs) = if b.started_at == start then b.id else charged_id fresh start bs

unfoldable pub charge : ℕ → ℕ → ℕ → ℕ → Spend → Spend
unfolding live charge_in bucket_start
charge fresh now bytes requests s = charge_in fresh (bucket_start now) bytes requests (live now s)

unfoldable pub spent : ℕ → Spend → Bool
unfolding live
spent now s = ltb 0 (length (live now s))

-- `perPeer.get(peerId) ?? new Spend()`
unfoldable pub get_spend : Text → List (Text × Spend) → Spend
get_spend k [] = []
get_spend k ((j, s) ∷ m) = if text_eq j k then s else get_spend k m

unfoldable pub has_spend : Text → List (Text × Spend) → Bool
has_spend k [] = false
has_spend k ((j, s) ∷ m) = text_eq j k || has_spend k m

-- `perPeer.set(peerId, spend)`
unfoldable pub set_spend : Text → Spend → List (Text × Spend) → List (Text × Spend)
set_spend k v [] = (k, v) ∷ []
set_spend k v ((j, s) ∷ m) = if text_eq j k then (j, v) ∷ m else (j, s) ∷ set_spend k v m

-- The loop that forgets peers with nothing left in the window; `spent` prunes those it keeps.
unfoldable pub forget_idle : ℕ → List (Text × Spend) → List (Text × Spend)
unfolding spent
forget_idle now [] = []
forget_idle now ((k, s) ∷ m) =
    if spent now s then (k, live now s) ∷ forget_idle now m else forget_idle now m

unfoldable pub over_budget : ℕ → ℕ → Spend → Spend → Bool
unfolding sum_bytes sum_requests live
over_budget now max_bytes peer total =
    ltb per_peer_bytes (sum_bytes (live now peer) + max_bytes)
    || (leb per_peer_requests (sum_requests (live now peer))
        || (ltb total_bytes (sum_bytes (live now total) + max_bytes)
            || leb total_requests (sum_requests (live now total))))

-- `totals` prunes both windows in place, also when the request is refused.
unfoldable pub refuse : Text → ℕ → Budget → Budget
unfolding live
refuse peer now b = record b {
  per_peer =
      (if has_spend peer b.per_peer
        then set_spend peer (live now (get_spend peer b.per_peer)) b.per_peer
        else b.per_peer);
  total = live now b.total;
}

unfoldable pub admit : Text → ℕ → ℕ → Budget → Budget × Reservation
unfolding charge
admit peer max_bytes now b =
    let spend = get_spend peer b.per_peer in
    let charged = set_spend peer (charge b.next_id now max_bytes 1 spend) b.per_peer in
    let r : Reservation = record {
      id = suc (suc b.next_id);
      peer_bucket = charged_id b.next_id (bucket_start now) (live now spend);
      total_bucket = charged_id (suc b.next_id) (bucket_start now) (live now b.total);
      max_bytes = max_bytes;
    } in
    (
      record {
        per_peer =
            (if ltb total_requests (length charged) then forget_idle now charged else charged);
        total = charge (suc b.next_id) now max_bytes 1 b.total;
        unsettled = r ∷ b.unsettled;
        next_id = suc (suc (suc b.next_id));
      },
      r,
    )

unfoldable pub reserve_intake : Text → ℕ → ℕ → Budget → Budget × Option Reservation
reserve_intake peer max_bytes now b =
    let granted = admit peer max_bytes now b in
    if over_budget now max_bytes (get_spend peer b.per_peer) b.total
    then (refuse peer now b, none)
    else (granted.0, some granted.1)

-- `Math.max(0, bucket.bytes + Math.max(0, bytes) - maxBytes)` on the bucket object `id`.
unfoldable pub correct : ℕ → ℕ → ℕ → Spend → Spend
correct id bytes max_bytes =
    map (λ b. if b.id == id then record b { bytes = b.bytes + bytes - max_bytes } else b)

unfoldable pub take_reservation : ℕ → List Reservation → Option (Reservation × List Reservation)
take_reservation id [] = none
take_reservation id (r ∷ rs) =
    if r.id == id
    then some (r, rs)
    else elim (take_reservation id rs) [ none ↦ none | some (q, rest) ↦ some (q, r ∷ rest) ]

-- A bucket that left the window is in no list any more, so correcting it changes nothing.
unfoldable pub settle : ℕ → ℤ → Budget → Budget
unfolding correct
settle id bytes b = elim (take_reservation id b.unsettled) [
  | none ↦ b
  | some (r, rest) ↦ record b {
    per_peer = map (λ e. (e.0, correct r.peer_bucket (pos_part bytes) r.max_bytes e.1)) b.per_peer;
    total = correct r.total_bucket (pos_part bytes) r.max_bytes b.total;
    unsettled = rest;
  }
]
