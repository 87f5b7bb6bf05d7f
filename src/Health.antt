-- ===== src/Health.antt =====
-- src/health/state.ts: the checkpoint attempt and the refresh of its snapshot at read time.
-- Times are milliseconds in ℕ. A difference `a - b` is only compared from above (`<=`, `>`), where
-- a negative value and the 0 of truncated subtraction answer alike.
mod Types
pub mod Attempt
pub mod Refresh
pub mod Tests
pub use Types.*
use ipfs_node.Base.{
  ℕ, ◌-◌, ◌*◌, ◌/◌, max, Bool, true, false, ◌&&◌, ◌||◌, not, Option, none, some, ltb, leb, ◌==◌,
  is_some, is_none, get_or, if◌then◌else◌,
}

unfoldable pub age : ℕ → Option ℕ → Option ℕ
age now none = none
age now (some t) = some (now - t)

unfoldable pub not_in_future : ℕ → Option ℕ → Bool
not_in_future now none = true
not_in_future now (some t) = leb t now

unfoldable pub checkpoint_round : ℕ → ℕ → ℕ
checkpoint_round time interval_ms = time / interval_ms * interval_ms

-- `at !== null && now - at <= limit`
unfoldable pub within : ℕ → Option ℕ → ℕ → Bool
within now none limit = false
within now (some t) limit = leb (now - t) limit

abbrev pub completed_at_of : Option HealthCheckpoint → Option ℕ
completed_at_of none = none
completed_at_of (some c) = some c.completed_at

abbrev pub height_of : Option HealthCheckpoint → ℕ
height_of none = 0
height_of (some c) = c.height

-- The backlog grace that both functions apply.
unfoldable pub grace_allows : Option ℕ → ℕ → Bool
grace_allows grace cycles = ltb 0 (get_or grace 0) && leb cycles (get_or grace 0)

unfoldable pub clock_is_consistent : HealthInputs → Bool
unfolding not_in_future
clock_is_consistent input =
    not_in_future input.now (completed_at_of input.previous)
    && (not_in_future input.now input.storage_updated_at
        && not_in_future input.now input.repair_completed_at)

unfoldable pub repair_is_fresh : HealthPolicy → HealthInputs → Bool
repair_is_fresh policy input =
    not input.repair_required
    || (clock_is_consistent input
        && (within input.now input.repair_completed_at policy.repair_max_age_ms
            && (if input.repair_backlog == 0
                then input.repair_healthy
                else grace_allows policy.repair_backlog_grace_cycles
                    input.repair_consecutive_unsuccessful_cycles)))

-- `Object.values(prerequisiteChecks)`, with `checkpointFresh` put in front as in the report.
unfoldable pub checks_of : HealthPolicy → HealthInputs → Bool → HealthChecks
checks_of policy input fresh = record {
  checkpoint_fresh = fresh;
  clock_consistent = clock_is_consistent input;
  helia = input.helia_ready;
  startup_reconciliation = input.startup_complete && input.startup_healthy;
  storage_fresh =
      clock_is_consistent input
      && within input.now input.storage_updated_at policy.storage_max_age_ms;
  storage_reserve = leb input.storage_reserved_bytes input.storage_available_bytes;
  repair_fresh = repair_is_fresh policy input;
  peer_attestations = leb policy.required_peer_count input.attested_peers;
}

-- `Object.values(prerequisiteChecks).every(Boolean)`: all but `checkpointFresh`.
unfoldable pub prerequisites : HealthChecks → Bool
prerequisites c =
    c.clock_consistent
    && (c.helia
        && (c.startup_reconciliation
            && (c.storage_fresh && (c.storage_reserve && (c.repair_fresh && c.peer_attestations)))))

unfoldable pub is_complete : HealthPolicy → HealthInputs → Bool
is_complete policy input = prerequisites (checks_of policy input false)

unfoldable pub too_old : ℕ → Option ℕ → ℕ → Bool
too_old now none limit = false
too_old now (some t) limit = ltb limit (now - t)

unfoldable pub state_of : HealthPolicy → HealthInputs → HealthState
state_of policy input =
    if is_complete policy input
    then ready
    else if not input.startup_complete
    then starting
    else if too_old input.now (completed_at_of input.previous) policy.max_checkpoint_age_ms
    then stale
    else degraded

unfoldable pub completed_of : HealthPolicy → HealthInputs → Option HealthCheckpoint
completed_of policy input =
    if is_complete policy input
    then some (record {
      height =
          max (height_of input.previous) (checkpoint_round input.now policy.checkpoint_interval_ms);
      completed_at = input.now;
      membership_version = input.membership_version;
      attested_peers = input.attested_peers;
    })
    else none

-- `completed?.x ?? input.previous?.x`
abbrev pub latest : Option HealthCheckpoint → Option HealthCheckpoint → Option HealthCheckpoint
latest none previous = previous
latest (some c) previous = some c

unfoldable pub evaluate_health :
    HealthPolicy → HealthInputs → HealthSnapshot × Option HealthCheckpoint
evaluate_health policy input =
    let completed = completed_of policy input in
    let observed_at = completed_at_of (latest completed input.previous) in
    let checks =
      checks_of policy input (within input.now observed_at policy.max_checkpoint_age_ms) in
    (
      record {
        state = state_of policy input;
        height = height_of (latest completed input.previous);
        timestamp = input.now;
        evaluated_at = input.now;
        checkpoint = record {
          interval_ms = policy.checkpoint_interval_ms;
          observed_at = observed_at;
          age_ms = age input.now observed_at;
          max_age_ms = policy.max_checkpoint_age_ms;
        };
        membership = record {
          version = input.membership_version;
          required_peers = policy.required_peer_count;
          attested_peers = input.attested_peers;
        };
        startup = record { complete = input.startup_complete; healthy = input.startup_healthy };
        storage = record {
          measured_at = input.storage_updated_at;
          measurement_age_ms = age input.now input.storage_updated_at;
          reserve_healthy = checks.storage_reserve;
        };
        replication = record {
          repair_required = input.repair_required;
          schedule = input.repair_schedule;
          last_complete_at = input.repair_completed_at;
          age_ms = age input.now input.repair_completed_at;
          backlog = input.repair_backlog;
          consecutive_unsuccessful_cycles = input.repair_consecutive_unsuccessful_cycles;
          last_cycle = input.repair_last_cycle;
        };
        checks = checks;
      },
      completed,
    )

-- `age !== null && age <= limit`
unfoldable pub at_most : Option ℕ → ℕ → Bool
at_most none limit = false
at_most (some a) limit = leb a limit

-- `age !== null && age > limit`
unfoldable pub exceeds : Option ℕ → ℕ → Bool
exceeds none limit = false
exceeds (some a) limit = ltb limit a

unfoldable pub refreshed_checks : HealthSnapshot → ℕ → HealthPolicy → HealthChecks
refreshed_checks current timestamp policy =
    let clock_consistent =
      current.checks.clock_consistent
      && (not_in_future timestamp current.checkpoint.observed_at
          && (not_in_future timestamp current.storage.measured_at
              && not_in_future timestamp current.replication.last_complete_at)) in
    record (current.checks) {
      clock_consistent = clock_consistent;
      checkpoint_fresh =
          clock_consistent
          && at_most (age timestamp current.checkpoint.observed_at) current.checkpoint.max_age_ms;
      storage_fresh =
          current.checks.storage_fresh
          && (clock_consistent
              && at_most (age timestamp current.storage.measured_at) policy.storage_max_age_ms);
      repair_fresh =
          not current.replication.repair_required
          || (current.checks.repair_fresh
              && (clock_consistent
                  && ((current.replication.backlog == 0
                        || grace_allows policy.repair_backlog_grace_cycles
                            current.replication.consecutive_unsuccessful_cycles)
                      && at_most (age timestamp current.replication.last_complete_at)
                          policy.repair_max_age_ms)));
    }

abbrev is_starting : HealthState → Bool
is_starting starting = true
is_starting _ = false

abbrev is_ready : HealthState → Bool
is_ready ready = true
is_ready _ = false

unfoldable pub refreshed_state : HealthSnapshot → ℕ → HealthChecks → HealthState
refreshed_state current timestamp checks =
    if not (is_starting current.state)
      && exceeds (age timestamp current.checkpoint.observed_at) current.checkpoint.max_age_ms
    then stale
    else if is_ready current.state
        && (not checks.clock_consistent || (not checks.storage_fresh || not checks.repair_fresh))
    then degraded
    else current.state

unfoldable pub refresh_health_snapshot : HealthSnapshot → ℕ → HealthPolicy → HealthSnapshot
refresh_health_snapshot current timestamp policy =
    let checks = refreshed_checks current timestamp policy in
    record current {
      state = refreshed_state current timestamp checks;
      timestamp = timestamp;
      checkpoint = record (current.checkpoint) {
        age_ms = age timestamp current.checkpoint.observed_at;
      };
      storage = record (current.storage) {
        measurement_age_ms = age timestamp current.storage.measured_at;
      };
      replication = record (current.replication) {
        age_ms = age timestamp current.replication.last_complete_at;
      };
      checks = checks;
    }
