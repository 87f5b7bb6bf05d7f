-- ===== src/Gc/Plan.antt =====
-- `planGarbageCollection` (src/storage/gc.ts). Byte counts are whole numbers; the estimate is signed
-- until the last step. The reserve with its margin, `Math.ceil(reserveBytes * 1.25)`, is a quotient.
use ipfs_node.Base.Int.{ℤ, pos, pos_part, minus, from_minus, sub_ℕ, ltz}
use ipfs_node.Base.Sort.{sort}
use ipfs_node.Base.{
  ℕ, ◌+◌, ◌-◌, ◌*◌, ◌/◌, min, Bool, true, false, ◌&&◌, ◌||◌, not, Option, none, some, List, [], ◌∷◌,
  ◌++◌, map, ltb, is_none, filter, if◌then◌else◌, get_or,
}
use ipfs_node.Base.Texts.{Text}
use ipfs_node.Registry.{
  FileRecord, Process, contains, is_confirmed, is_expired, is_admission_in_flight,
  protected_storage_bytes,
}

pub record Watermarks : Type 0 where
  pub high_watermark_bytes : ℕ
  pub low_watermark_bytes : ℕ

pub record GcPlanInput : Type 0 where
  pub blockstore_bytes : ℕ
  pub reclaimable_bytes : Option ℤ
  pub watermarks : Watermarks
  pub available_bytes : Option ℕ
  pub reserve_bytes : Option ℕ
  pub records : List FileRecord
  pub now : ℕ

pub data CollectionTrigger : Type 0 where
  nothing watermark disk_reserve forced : CollectionTrigger

pub record GcPlan : Type 0 where
  pub should_collect : Bool
  pub trigger : CollectionTrigger
  pub expired : List FileRecord
  pub evicted : List FileRecord
  pub retained : List FileRecord
  pub estimated_bytes_after : ℕ

unfoldable pub is_unconfirmed : FileRecord → Bool
is_unconfirmed r = not (is_confirmed r.state)

unfoldable pub is_expired_candidate : Process → ℕ → FileRecord → Bool
is_expired_candidate p now r = is_expired r now && not (is_admission_in_flight p r)

unfoldable pub is_alive_candidate : Process → ℕ → FileRecord → Bool
is_alive_candidate p now r =
    is_none r.replica_stage && (not (is_expired r now) && not (is_admission_in_flight p r))

unfoldable pub expired_of : Process → GcPlanInput → List FileRecord
unfolding is_unconfirmed is_expired_candidate
expired_of p input = filter (is_expired_candidate p input.now) (filter is_unconfirmed input.records)

unfoldable pub alive_of : Process → GcPlanInput → List FileRecord
unfolding is_unconfirmed is_alive_candidate
alive_of p input = filter (is_alive_candidate p input.now) (filter is_unconfirmed input.records)

-- The loop over the expired files.
unfoldable pub release_estimate : ℤ → List FileRecord → ℤ
release_estimate estimate [] = estimate
release_estimate estimate (r ∷ rs) =
    release_estimate (if r.pinned then minus estimate (protected_storage_bytes r) else estimate) rs

unfoldable pub estimate_before : GcPlanInput → ℤ
estimate_before input = pos (
    input.blockstore_bytes
    - min input.blockstore_bytes (pos_part (get_or input.reclaimable_bytes (pos 0))))

unfoldable pub over_watermark : GcPlanInput → Bool
over_watermark input = ltb input.watermarks.high_watermark_bytes input.blockstore_bytes

-- `Math.ceil(reserveBytes * (1 + RESERVE_RECOVERY_MARGIN))`
abbrev pub reserve_with_margin : ℕ → ℕ
reserve_with_margin reserve = (5 * reserve + 3) / 4

-- `none` stands for a space that is not under the reserve, else the bytes that have to come back.
unfoldable pub reserve_shortage : Option ℕ → Option ℕ → Option ℤ
reserve_shortage none reserve = none
reserve_shortage (some available) none = none
reserve_shortage (some available) (some reserve) =
    if ltb available reserve then some (sub_ℕ (reserve_with_margin reserve) available) else none

abbrev pub is_under : Option ℤ → Bool
is_under none = false
is_under (some t) = true

unfoldable pub still_short : GcPlanInput → ℤ → Bool
unfolding over_watermark reserve_shortage
still_short input estimate =
    (over_watermark input && ltz (pos input.watermarks.low_watermark_bytes) estimate)
    || ltz (from_minus input.blockstore_bytes estimate)
        (get_or (reserve_shortage input.available_bytes input.reserve_bytes) (pos 0))

-- `a.createdAt - b.createdAt`
abbrev pub older : FileRecord → FileRecord → Bool
older a b = ltb a.created_at b.created_at

-- The loop over the live files, oldest first: the chosen ones and the final estimate.
unfoldable pub evict : (ℤ → Bool) → ℤ → List FileRecord → List FileRecord × ℤ
evict short estimate [] = ([], estimate)
evict short estimate (r ∷ rs) =
    let rest = evict short (minus estimate (protected_storage_bytes r)) rs in
    if short estimate then (r ∷ rest.0, rest.1) else ([], estimate)

unfoldable pub should_collect : GcPlanInput → Bool
unfolding over_watermark reserve_shortage
should_collect input =
    over_watermark input || is_under (reserve_shortage input.available_bytes input.reserve_bytes)

unfoldable pub trigger_of : GcPlanInput → CollectionTrigger
unfolding over_watermark reserve_shortage
trigger_of input =
    if over_watermark input
    then watermark
    else if is_under (reserve_shortage input.available_bytes input.reserve_bytes)
    then disk_reserve
    else nothing

unfoldable pub eviction : Process → GcPlanInput → List FileRecord × ℤ
eviction p input =
    let estimate = release_estimate (estimate_before input) (expired_of p input) in
    if should_collect input
    then evict (still_short input) estimate (sort older (alive_of p input))
    else ([], estimate)

abbrev pub cids : List FileRecord → List Text
cids = map (λ r. r.cid)

unfoldable pub plan_garbage_collection : Process → GcPlanInput → GcPlan
plan_garbage_collection p input =
    let released = expired_of p input in
    let chosen = eviction p input in
    record {
      should_collect = should_collect input;
      trigger = trigger_of input;
      expired = released;
      evicted = chosen.0;
      retained = filter (λ r. not (contains r.cid (cids (released ++ chosen.0)))) input.records;
      estimated_bytes_after = pos_part chosen.1;
    }
