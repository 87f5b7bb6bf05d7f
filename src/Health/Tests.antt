-- ===== src/Health/Tests.antt =====
-- The theorems of the health checkpoint at a concrete attempt, and runs of it.
use ipfs_node.Base.Texts.{text}
use ipfs_node.Base.{◌≤◌, ◌≡◌, ◌↔◌, refl, true, false, none, some, is_some}
use ipfs_node.Health.{
  ready, stale, HealthCheckpoint, HealthInputs, HealthPolicy, HealthSnapshot, evaluate_health,
  state_of, completed_of, is_complete, checks_of, prerequisites, repair_is_fresh,
  clock_is_consistent, refresh_health_snapshot, refreshed_checks, refreshed_state, checkpoint_round,
  within, grace_allows, not_in_future, age, at_most, exceeds,
}
use ipfs_node.Health.Attempt.{IsHealthy, evaluate_health-ready, evaluate_health-height}
use ipfs_node.Health.Refresh.{Observed, NotOlder, refresh_health_snapshot-ready}

abbrev policy : HealthPolicy
policy = record {
  storage_max_age_ms = 600;
  repair_max_age_ms = 5000;
  repair_backlog_grace_cycles = some 2;
  required_peer_count = 1;
  max_checkpoint_age_ms = 300;
  checkpoint_interval_ms = 100;
}

abbrev checkpoint : HealthCheckpoint
checkpoint = record {
  height = 900;
  completed_at = 950;
  membership_version = text "m";
  attested_peers = 2;
}

abbrev inputs : HealthInputs
inputs = record {
  now = 1050;
  helia_ready = true;
  startup_complete = true;
  startup_healthy = true;
  storage_updated_at = some 1000;
  storage_available_bytes = 80;
  storage_reserved_bytes = 50;
  repair_required = true;
  repair_schedule = text "s";
  repair_completed_at = some 700;
  repair_healthy = false;
  repair_backlog = 3;
  repair_consecutive_unsuccessful_cycles = 2;
  repair_last_cycle = none;
  attested_peers = 1;
  membership_version = text "m";
  previous = some checkpoint;
}

abbrev snapshot : HealthSnapshot
snapshot = (evaluate_health policy inputs).0

snapshot_ready : snapshot.state ≡ ready
unfolding evaluate_health state_of is_complete checks_of prerequisites repair_is_fresh
    clock_is_consistent within grace_allows not_in_future
snapshot_ready = refl

snapshot_goes_stale : (refresh_health_snapshot snapshot 1400 policy).state ≡ stale
unfolding evaluate_health completed_of state_of is_complete checks_of prerequisites repair_is_fresh
    clock_is_consistent within grace_allows not_in_future refresh_health_snapshot refreshed_state
    refreshed_checks age exceeds at_most checkpoint_round
snapshot_goes_stale = refl

evaluate_health-ready_example :
    ((evaluate_health policy inputs).0.state ≡ ready ↔ IsHealthy policy inputs)
    × (is_some (evaluate_health policy inputs).1 ≡ true ↔ IsHealthy policy inputs)
evaluate_health-ready_example = evaluate_health-ready policy inputs

evaluate_health-height_example :
    (900 ≤ (evaluate_health policy inputs).0.height)
    × ((evaluate_health policy inputs).1 ≡ none → (evaluate_health policy inputs).0.height ≡ 900)
evaluate_health-height_example = evaluate_health-height policy inputs

abbrev next_checkpoint : HealthCheckpoint
next_checkpoint = record {
  height = 1000;
  completed_at = 1050;
  membership_version = text "m";
  attested_peers = 1;
}

completes : (evaluate_health policy inputs).1 ≡ some next_checkpoint
unfolding evaluate_health completed_of is_complete checks_of prerequisites repair_is_fresh
    clock_is_consistent within grace_allows not_in_future checkpoint_round
completes = refl

still_ready : (refresh_health_snapshot snapshot 1200 policy).state ≡ ready
unfolding evaluate_health completed_of state_of is_complete checks_of prerequisites repair_is_fresh
    clock_is_consistent within grace_allows not_in_future refresh_health_snapshot refreshed_state
    refreshed_checks age exceeds at_most checkpoint_round
still_ready = refl

refresh_health_snapshot-ready_example :
    (snapshot.state ≡ ready)
    × (snapshot.checks.clock_consistent ≡ true)
    × NotOlder snapshot.checkpoint.observed_at 1200 snapshot.checkpoint.max_age_ms
    × (snapshot.checks.storage_fresh ≡ true)
    × Observed snapshot.storage.measured_at 1200 600
    × (snapshot.replication.repair_required ≡ true
        → Observed snapshot.replication.last_complete_at 1200 5000)
refresh_health_snapshot-ready_example =
    refresh_health_snapshot-ready snapshot 1200 policy still_ready
