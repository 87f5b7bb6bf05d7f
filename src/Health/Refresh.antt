-- ===== src/Health/Refresh.antt =====
-- About `refreshHealthSnapshot` (src/health/state.ts).
use ipfs_node.Base.{ℕ, ◌≤◌, ◌-◌, ◌≡◌, true, Option, none, some, arith}
use ipfs_node.Health.{
  ready, HealthPolicy, HealthSnapshot, refresh_health_snapshot, refreshed_checks, refreshed_state,
  age, not_in_future, at_most, exceeds,
}

-- Every observation that a snapshot carries is at most this old at the time.
abbrev pub Observed : Option ℕ → ℕ → ℕ → Type 0
Observed none t limit = ⊥
Observed (some o) t limit = (o ≤ t) × (t - o ≤ limit)

-- The same of an observation that may be missing.
abbrev pub NotOlder : Option ℕ → ℕ → ℕ → Type 0
NotOlder none t limit = Unit
NotOlder (some o) t limit = (o ≤ t) × (t - o ≤ limit)

-- A snapshot that reads `ready` at time `t` was `ready` when it was evaluated, and at `t` its clock is
-- consistent, its storage was fresh, its checkpoint (if it has one) is no older than the limit, and the storage measurement and, where repair
-- is required, the repair cycle are inside the limits of the policy, with none of the four from the future.
pub refresh_health_snapshot-ready :
    (s : HealthSnapshot) (t : ℕ) (policy : HealthPolicy)
    → (refresh_health_snapshot s t policy).state ≡ ready
    → (s.state ≡ ready)
      × (s.checks.clock_consistent ≡ true)
      × NotOlder s.checkpoint.observed_at t s.checkpoint.max_age_ms
      × (s.checks.storage_fresh ≡ true)
      × Observed s.storage.measured_at t policy.storage_max_age_ms
      × (s.replication.repair_required ≡ true
          → Observed s.replication.last_complete_at t policy.repair_max_age_ms)
unfolding refresh_health_snapshot refreshed_checks refreshed_state age not_in_future at_most exceeds
refresh_health_snapshot-ready s t policy h = ground arith

-- Reading at one time and then at a later one gives the state of the later reading alone, where
-- nothing was observed after the first.
pub state-refresh_twice :
    (s : HealthSnapshot) (t u : ℕ) (policy : HealthPolicy)
    → t ≤ u
    → not_in_future t s.checkpoint.observed_at ≡ true
    → not_in_future t s.storage.measured_at ≡ true
    → not_in_future t s.replication.last_complete_at ≡ true
    → (refresh_health_snapshot (refresh_health_snapshot s t policy) u policy).state
      ≡ (refresh_health_snapshot s u policy).state
unfolding refresh_health_snapshot refreshed_checks refreshed_state age not_in_future at_most exceeds
state-refresh_twice s t u policy h a b c = ground arith
