-- ===== src/Config/Types.antt =====
-- The settings of src/storage/config.ts, their defaults, and the sections of a config file that set them.
use ipfs_node.Base.Fields.{Field, undefined}
use ipfs_node.Base.Texts.{Text, text}
use ipfs_node.Base.{ℕ, ◌*◌, Bool, true, false, List, [], ◌∷◌}
use ipfs_node.Placement.{PlacementTier}
use ipfs_node.Config.Options.{Section, absent}

abbrev pub mib : ℕ
mib = 1024 * 1024

abbrev pub gib : ℕ
gib = 1024 * mib

abbrev pub day : ℕ
day = 24 * 60 * 60 * 1000

pub record GarbageCollectionConfig : Type 0 where
  pub enabled : Bool
  pub schedule : Text
  pub high_watermark_bytes : ℕ
  pub low_watermark_bytes : ℕ

pub record StorageConfig : Type 0 where
  pub max_request_size_bytes : ℕ
  pub max_concurrent_uploads : ℕ
  pub max_concurrent_downloads : ℕ
  pub max_concurrent_downloads_per_client : ℕ
  pub disk_reserve_bytes : ℕ
  pub confirmation_required : Bool
  pub temporary_ttl_ms : ℕ
  pub gc : GarbageCollectionConfig

pub record ReplicationConfig : Type 0 where
  pub enabled : Bool
  pub placement : List PlacementTier
  pub ack_quorum : ℕ
  pub require_quorum_on_upload : Bool
  pub request_timeout_ms : ℕ
  pub repair_enabled : Bool
  pub repair_schedule : Text
  pub repair_batch_delay_ms : ℕ
  pub repair_probe_concurrency : ℕ

abbrev pub default_storage_config : StorageConfig
default_storage_config = record {
  max_request_size_bytes = 512 * mib;
  max_concurrent_uploads = 32;
  max_concurrent_downloads = 64;
  max_concurrent_downloads_per_client = 8;
  disk_reserve_bytes = 5 * gib;
  confirmation_required = false;
  temporary_ttl_ms = 24 * 60 * 60 * 1000;
  gc = record {
    enabled = true;
    schedule = text "0 */15 * * * *";
    high_watermark_bytes = 50 * gib;
    low_watermark_bytes = 40 * gib;
  };
}

abbrev pub default_replication_config : ReplicationConfig
default_replication_config = record {
  enabled = true;
  placement =
      record { min_age_ms = 0; copies = 4 }
      ∷ record { min_age_ms = 180 * day; copies = 3 }
      ∷ record { min_age_ms = 365 * day; copies = 2 }
      ∷ [];
  ack_quorum = 1;
  require_quorum_on_upload = false;
  request_timeout_ms = 30000;
  repair_enabled = true;
  repair_schedule = text "0 */30 * * * *";
  repair_batch_delay_ms = 1000;
  repair_probe_concurrency = 4;
}

pub record GcInput : Type 0 where
  pub enabled : Field
  pub schedule : Field
  pub high_watermark_bytes : Field
  pub low_watermark_bytes : Field

pub record StorageInput : Type 0 where
  pub max_request_size_bytes : Field
  pub max_concurrent_uploads : Field
  pub max_concurrent_downloads : Field
  pub max_concurrent_downloads_per_client : Field
  pub disk_reserve_bytes : Field
  pub confirmation_required : Field
  pub temporary_ttl_ms : Field
  pub gc : Section GcInput

pub record TierInput : Type 0 where
  pub min_age_ms : Field
  pub copies : Field

-- `replication.placement`, whose entries are of any shape.
pub data PlacementSetting : Type 0 where
  default_placement : PlacementSetting
  tiers : List (Section TierInput) → PlacementSetting
  not_an_array : PlacementSetting

pub record ReplicationInput : Type 0 where
  pub enabled : Field
  pub placement : PlacementSetting
  pub ack_quorum : Field
  pub require_quorum_on_upload : Field
  pub request_timeout_ms : Field
  pub repair_enabled : Field
  pub repair_schedule : Field
  pub repair_batch_delay_ms : Field
  pub repair_probe_concurrency : Field

abbrev pub no_gc : GcInput
no_gc = record {
  enabled = undefined;
  schedule = undefined;
  high_watermark_bytes = undefined;
  low_watermark_bytes = undefined;
}

abbrev pub no_storage : StorageInput
no_storage = record {
  max_request_size_bytes = undefined;
  max_concurrent_uploads = undefined;
  max_concurrent_downloads = undefined;
  max_concurrent_downloads_per_client = undefined;
  disk_reserve_bytes = undefined;
  confirmation_required = undefined;
  temporary_ttl_ms = undefined;
  gc = absent;
}

abbrev pub no_tier : TierInput
no_tier = record { min_age_ms = undefined; copies = undefined }

abbrev pub no_replication : ReplicationInput
no_replication = record {
  enabled = undefined;
  placement = default_placement;
  ack_quorum = undefined;
  require_quorum_on_upload = undefined;
  request_timeout_ms = undefined;
  repair_enabled = undefined;
  repair_schedule = undefined;
  repair_batch_delay_ms = undefined;
  repair_probe_concurrency = undefined;
}
