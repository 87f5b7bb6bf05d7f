-- ===== src/Config/Tests.antt =====
-- The theorems on the settings at concrete config files.
use ipfs_node.Base.Fields.{undefined, boolean, count, string}
use ipfs_node.Base.Texts.{text}
use ipfs_node.Base.{◌≤◌, ◌≡◌, refl, true, [], ◌∷◌, arith}
use ipfs_node.Placement.{copies_for_age}
use ipfs_node.Config.{
  absent, contents, valid, invalid, named, in_tier, section, tiers, StorageConfig, StorageInput,
  ReplicationConfig, ReplicationInput, default_storage_config, default_replication_config,
  optional_boolean, optional_string, optional_integer, resolve_gc, resolve_limits,
  resolve_storage_config, resolve_tier, resolve_tiers, check_tiers, check_placement,
  resolve_placement, most_copies, resolve_options, resolve_replication_config,
}
use ipfs_node.Config.Storage.{IsSound, resolve_storage_config-IsSound}
use ipfs_node.Config.Copies.{resolve_replication_config-copies}

-- A file that sets the watermarks and the share of a client, and leaves the rest to the defaults.
abbrev small_disk : StorageInput
small_disk = record {
  max_request_size_bytes = undefined;
  max_concurrent_uploads = undefined;
  max_concurrent_downloads = count 4;
  max_concurrent_downloads_per_client = count 2;
  disk_reserve_bytes = count 0;
  confirmation_required = boolean true;
  temporary_ttl_ms = undefined;
  gc = contents (record {
    enabled = undefined;
    schedule = string (text "daily");
    high_watermark_bytes = count 900;
    low_watermark_bytes = count 800;
  });
}

abbrev small_storage : StorageConfig
small_storage = record default_storage_config {
  max_concurrent_downloads = 4;
  max_concurrent_downloads_per_client = 2;
  disk_reserve_bytes = 0;
  confirmation_required = true;
  gc = record {
    enabled = true;
    schedule = text "daily";
    high_watermark_bytes = 900;
    low_watermark_bytes = 800;
  };
}

small_disk_accepted : resolve_storage_config (contents small_disk) 100 ≡ valid small_storage
unfolding resolve_storage_config section resolve_gc resolve_limits optional_boolean optional_string
    optional_integer
small_disk_accepted = refl

-- The share of a client exceeds the default bound on downloads.
share_refused :
    resolve_storage_config
      (contents (record small_disk {
        max_concurrent_downloads = undefined;
        max_concurrent_downloads_per_client = count 65;
      }))
      100
    ≡ invalid (named (text "storage.maxConcurrentDownloadsPerClient"))
unfolding resolve_storage_config section resolve_gc resolve_limits optional_boolean optional_string
    optional_integer
share_refused = refl

defaults_accepted : resolve_storage_config absent 100 ≡ valid default_storage_config
unfolding resolve_storage_config section resolve_gc resolve_limits optional_boolean optional_string
    optional_integer
defaults_accepted = refl

resolve_storage_config-IsSound_example : IsSound 100 small_storage
resolve_storage_config-IsSound_example =
    resolve_storage_config-IsSound (contents small_disk) 100 small_storage small_disk_accepted

-- Strict uploads over two tiers.
abbrev two_tiers : ReplicationInput
two_tiers = record {
  enabled = undefined;
  placement = tiers (
      contents (record { min_age_ms = undefined; copies = count 3 })
      ∷ contents (record { min_age_ms = count 10; copies = count 2 })
      ∷ []);
  ack_quorum = count 2;
  require_quorum_on_upload = boolean true;
  request_timeout_ms = undefined;
  repair_enabled = undefined;
  repair_schedule = undefined;
  repair_batch_delay_ms = count 0;
  repair_probe_concurrency = undefined;
}

abbrev strict_replication : ReplicationConfig
strict_replication = record default_replication_config {
  placement = record { min_age_ms = 0; copies = 3 } ∷ record { min_age_ms = 10; copies = 2 } ∷ [];
  ack_quorum = 2;
  require_quorum_on_upload = true;
  repair_batch_delay_ms = 0;
}

two_tiers_accepted : resolve_replication_config (contents two_tiers) ≡ valid strict_replication
unfolding resolve_replication_config section resolve_placement resolve_tiers resolve_tier
    check_placement check_tiers most_copies resolve_options optional_boolean optional_string
    optional_integer
two_tiers_accepted = refl

-- The second tier asks for more copies than the first.
growing_refused :
    resolve_replication_config (
      contents (record two_tiers {
        placement =
            tiers (absent ∷ contents (record { min_age_ms = count 10; copies = count 2 }) ∷ []);
      }))
    ≡ invalid (in_tier 1 (text "copies"))
unfolding resolve_replication_config section resolve_placement resolve_tiers resolve_tier
    check_placement check_tiers most_copies resolve_options optional_boolean optional_string
    optional_integer
growing_refused = refl

resolve_replication_config-copies_example :
    (1 ≤ copies_for_age strict_replication.placement 12)
    × (copies_for_age strict_replication.placement 12
        ≤ copies_for_age strict_replication.placement 3)
    × (1 ≤ strict_replication.ack_quorum)
    × (strict_replication.ack_quorum ≤ copies_for_age strict_replication.placement 0)
    × (strict_replication.require_quorum_on_upload ≡ true → 2 ≤ strict_replication.ack_quorum)
resolve_replication_config-copies_example =
    resolve_replication_config-copies (contents two_tiers) strict_replication 3 12
      two_tiers_accepted (omega arith)
