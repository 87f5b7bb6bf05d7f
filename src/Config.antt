-- ===== src/Config.antt =====
-- src/storage/config.ts: the settings of the storage and of the replication, read from a parsed config
-- file. An option is the Field of a decoded JSON value; of a rejection the model keeps the option.
mod Options
mod Types
pub mod Ensures
pub mod Storage
pub mod Copies
mod Tests
use ipfs_node.Base.Fields.{Field, undefined, string, boolean, count}
use ipfs_node.Base.Texts.{Text, text}
use ipfs_node.Base.{
  ℕ, ◌*◌, ◌+◌, Bool, true, false, ◌&&◌, not, List, [], ◌∷◌, leb, ltb, ◌==◌, if◌then◌else◌,
}
use ipfs_node.Placement.{PlacementTier}
unfoldable pub use Options.*
pub use Types.*

-- The options of `storage.gc`, and the order of the watermarks.
unfoldable pub resolve_gc : GcInput → GarbageCollectionConfig → Checked GarbageCollectionConfig
resolve_gc input defaults = do
  enabled ← optional_boolean input.enabled (named (text "storage.gc.enabled")) defaults.enabled
  schedule ← optional_string input.schedule (named (text "storage.gc.schedule")) defaults.schedule
  high ←
      optional_integer input.high_watermark_bytes (named (text "storage.gc.highWatermarkBytes"))
        defaults.high_watermark_bytes 1
  low ←
      optional_integer input.low_watermark_bytes (named (text "storage.gc.lowWatermarkBytes"))
        defaults.low_watermark_bytes 1
  fail_if (leb high low) (named (text "storage.gc.lowWatermarkBytes"))
  valid (record {
    enabled = enabled;
    schedule = schedule;
    high_watermark_bytes = high;
    low_watermark_bytes = low;
  })

-- The other options of `storage`.
unfoldable pub resolve_limits :
    StorageInput → StorageConfig → GarbageCollectionConfig → Checked StorageConfig
resolve_limits input defaults gc = do
  request ←
      optional_integer input.max_request_size_bytes (named (text "storage.maxRequestSizeBytes"))
        defaults.max_request_size_bytes 1
  uploads ←
      optional_integer input.max_concurrent_uploads (named (text "storage.maxConcurrentUploads"))
        defaults.max_concurrent_uploads 1
  downloads ←
      optional_integer input.max_concurrent_downloads
        (named (text "storage.maxConcurrentDownloads")) defaults.max_concurrent_downloads 1
  share ←
      optional_integer input.max_concurrent_downloads_per_client
        (named (text "storage.maxConcurrentDownloadsPerClient"))
        defaults.max_concurrent_downloads_per_client 1
  reserve ←
      optional_integer input.disk_reserve_bytes (named (text "storage.diskReserveBytes"))
        defaults.disk_reserve_bytes 0
  confirmation ←
      optional_boolean input.confirmation_required (named (text "storage.confirmationRequired"))
        defaults.confirmation_required
  ttl ←
      optional_integer input.temporary_ttl_ms (named (text "storage.temporaryTtlMs"))
        defaults.temporary_ttl_ms 1
  valid (record {
    max_request_size_bytes = request;
    max_concurrent_uploads = uploads;
    max_concurrent_downloads = downloads;
    max_concurrent_downloads_per_client = share;
    disk_reserve_bytes = reserve;
    confirmation_required = confirmation;
    temporary_ttl_ms = ttl;
    gc = gc;
  })

unfoldable pub resolve_storage_config : Section StorageInput → ℕ → Checked StorageConfig
resolve_storage_config raw upload_limit = do
  input ← section no_storage raw (named (text "storage"))
  gc_input ← section no_gc input.gc (named (text "storage.gc"))
  gc ← resolve_gc gc_input default_storage_config.gc
  storage ← resolve_limits input default_storage_config gc
  fail_if (ltb storage.max_request_size_bytes upload_limit)
      (named (text "storage.maxRequestSizeBytes"))
  fail_if (ltb storage.max_concurrent_downloads storage.max_concurrent_downloads_per_client)
      (named (text "storage.maxConcurrentDownloadsPerClient"))
  valid storage

unfoldable pub resolve_tier : Section TierInput → ℕ → Checked PlacementTier
resolve_tier entry index = do
  tier ← section no_tier entry (in_tier index [])
  age ← optional_integer tier.min_age_ms (in_tier index (text "minAgeMs")) 0 0
  copies ← optional_integer tier.copies (in_tier index (text "copies")) 1 1
  valid (record { min_age_ms = age; copies = copies })

-- `raw.map(…)`, from an index on.
unfoldable pub resolve_tiers : List (Section TierInput) → ℕ → Checked (List PlacementTier)
resolve_tiers [] index = valid []
resolve_tiers (entry ∷ entries) index = do
  tier ← resolve_tier entry index
  rest ← resolve_tiers entries (index + 1)
  valid (tier ∷ rest)

-- The loop that compares each tier with the one before.
unfoldable pub check_tiers : PlacementTier → List PlacementTier → ℕ → Checked (Unit {0})
check_tiers previous [] index = valid tt
check_tiers previous (tier ∷ rest) index = do
  fail_if (leb tier.min_age_ms previous.min_age_ms) (in_tier index (text "minAgeMs"))
  fail_if (ltb previous.copies tier.copies) (in_tier index (text "copies"))
  check_tiers tier rest (index + 1)

unfoldable pub check_placement : List PlacementTier → Checked (List PlacementTier)
check_placement [] = invalid (named (text "replication.placement"))
check_placement (first ∷ rest) = do
  fail_if (not (first.min_age_ms == 0)) (in_tier 0 (text "minAgeMs"))
  check_tiers first rest 1
  valid (first ∷ rest)

unfoldable pub resolve_placement :
    PlacementSetting → List PlacementTier → Checked (List PlacementTier)
resolve_placement default_placement defaults = valid defaults
resolve_placement not_an_array defaults = invalid (named (text "replication.placement"))
resolve_placement (tiers entries) defaults = resolve_tiers entries 0 >>= check_placement

-- `placement[0]?.copies ?? 0`
unfoldable pub most_copies : List PlacementTier → ℕ
most_copies [] = 0
most_copies (t ∷ ts) = t.copies

-- The options of `replication` beside the placement.
unfoldable pub resolve_options :
    ReplicationInput → ReplicationConfig → List PlacementTier → Checked ReplicationConfig
resolve_options input defaults placement = do
  enabled ← optional_boolean input.enabled (named (text "replication.enabled")) defaults.enabled
  quorum ←
      optional_integer input.ack_quorum (named (text "replication.ackQuorum")) defaults.ack_quorum 1
  strict ←
      optional_boolean input.require_quorum_on_upload
        (named (text "replication.requireQuorumOnUpload")) defaults.require_quorum_on_upload
  timeout ←
      optional_integer input.request_timeout_ms (named (text "replication.requestTimeoutMs"))
        defaults.request_timeout_ms 1
  repair ←
      optional_boolean input.repair_enabled (named (text "replication.repairEnabled"))
        defaults.repair_enabled
  schedule ←
      optional_string input.repair_schedule (named (text "replication.repairSchedule"))
        defaults.repair_schedule
  delay ←
      optional_integer input.repair_batch_delay_ms (named (text "replication.repairBatchDelayMs"))
        defaults.repair_batch_delay_ms 0
  probes ←
      optional_integer input.repair_probe_concurrency
        (named (text "replication.repairProbeConcurrency")) defaults.repair_probe_concurrency 1
  valid (record {
    enabled = enabled;
    placement = placement;
    ack_quorum = quorum;
    require_quorum_on_upload = strict;
    request_timeout_ms = timeout;
    repair_enabled = repair;
    repair_schedule = schedule;
    repair_batch_delay_ms = delay;
    repair_probe_concurrency = probes;
  })

unfoldable pub resolve_replication_config : Section ReplicationInput → Checked ReplicationConfig
resolve_replication_config raw = do
  input ← section no_replication raw (named (text "replication"))
  placement ← resolve_placement input.placement default_replication_config.placement
  replication ← resolve_options input default_replication_config placement
  fail_if (ltb (most_copies placement) replication.ack_quorum)
      (named (text "replication.ackQuorum"))
  fail_if (replication.require_quorum_on_upload && ltb replication.ack_quorum 2)
      (named (text "replication.ackQuorum"))
  valid replication
