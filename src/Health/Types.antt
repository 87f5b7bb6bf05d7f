-- ===== src/Health/Types.antt =====
-- src/health/state.ts: what an attempt reads, what it records and what the endpoint shows.
use ipfs_node.Base.Texts.{Text}
use ipfs_node.Base.{ℕ, Bool, Option}

pub data HealthState : Type 0 where
  starting ready stale degraded : HealthState

pub record HealthCheckpoint : Type 0 where
  pub height : ℕ
  pub completed_at : ℕ
  pub membership_version : Text
  pub attested_peers : ℕ

pub record HealthRepairLastCycle : Type 0 where
  pub examined : ℕ
  pub still_missing : ℕ
  pub unrecoverable : ℕ
  pub completed_at : Option ℕ
  pub successful : Bool

pub record HealthInputs : Type 0 where
  pub now : ℕ
  pub helia_ready : Bool
  pub startup_complete : Bool
  pub startup_healthy : Bool
  pub storage_updated_at : Option ℕ
  pub storage_available_bytes : ℕ
  pub storage_reserved_bytes : ℕ
  pub repair_required : Bool
  pub repair_schedule : Text
  pub repair_completed_at : Option ℕ
  pub repair_healthy : Bool
  pub repair_backlog : ℕ
  pub repair_consecutive_unsuccessful_cycles : ℕ
  pub repair_last_cycle : Option HealthRepairLastCycle
  pub attested_peers : ℕ
  pub membership_version : Text
  pub previous : Option HealthCheckpoint

-- The fields of the health configuration that the two functions read.
pub record HealthPolicy : Type 0 where
  pub storage_max_age_ms : ℕ
  pub repair_max_age_ms : ℕ
  pub repair_backlog_grace_cycles : Option ℕ
  pub required_peer_count : ℕ
  pub max_checkpoint_age_ms : ℕ
  pub checkpoint_interval_ms : ℕ

pub record CheckpointView : Type 0 where
  pub interval_ms : ℕ
  pub observed_at : Option ℕ
  pub age_ms : Option ℕ
  pub max_age_ms : ℕ

pub record MembershipView : Type 0 where
  pub version : Text
  pub required_peers : ℕ
  pub attested_peers : ℕ

pub record StartupView : Type 0 where
  pub complete : Bool
  pub healthy : Bool

pub record StorageView : Type 0 where
  pub measured_at : Option ℕ
  pub measurement_age_ms : Option ℕ
  pub reserve_healthy : Bool

pub record ReplicationView : Type 0 where
  pub repair_required : Bool
  pub schedule : Text
  pub last_complete_at : Option ℕ
  pub age_ms : Option ℕ
  pub backlog : ℕ
  pub consecutive_unsuccessful_cycles : ℕ
  pub last_cycle : Option HealthRepairLastCycle

pub record HealthChecks : Type 0 where
  pub checkpoint_fresh : Bool
  pub clock_consistent : Bool
  pub helia : Bool
  pub startup_reconciliation : Bool
  pub storage_fresh : Bool
  pub storage_reserve : Bool
  pub repair_fresh : Bool
  pub peer_attestations : Bool

pub record HealthSnapshot : Type 0 where
  pub state : HealthState
  pub height : ℕ
  pub timestamp : ℕ
  pub evaluated_at : ℕ
  pub checkpoint : CheckpointView
  pub membership : MembershipView
  pub startup : StartupView
  pub storage : StorageView
  pub replication : ReplicationView
  pub checks : HealthChecks
