-- ===== src/Health/Attempt.antt =====
-- About `evaluateHealth` (src/health/state.ts).
use ipfs_node.Base.{
  ℕ, ◌-◌, ◌≤◌, ◌<◌, ◌≡◌, ◌↔◌, Bool, true, false, not, ◌==◌, Option, none, some, arith, is_some,
  refl, Bool-cases, inl, inr, leb→le, le→leb, if◌then◌else◌,
}
use ipfs_node.Health.{
  ready, starting, stale, degraded, HealthCheckpoint, HealthInputs, HealthPolicy, checks_of,
  prerequisites, is_complete, state_of, completed_of, checkpoint_round, evaluate_health, height_of,
  clock_is_consistent, not_in_future, within, completed_at_of, grace_allows, repair_is_fresh,
  too_old,
}

-- A checkpoint that `parseCheckpoint` does not refuse: the round starts before it was completed.
pub record IsOrdered (c : HealthCheckpoint) : Type 0 where
  pub round_first : c.height ≤ c.completed_at

abbrev pub AllOrdered : Option HealthCheckpoint → Type 0
AllOrdered none = Unit
AllOrdered (some c) = IsOrdered c

-- What was observed was observed by the time.
abbrev pub NotAfter : ℕ → Option ℕ → Type 0
NotAfter now none = Unit
NotAfter now (some t) = t ≤ now

-- Where there is an observation, it is at most this old.
abbrev pub Recent : ℕ → Option ℕ → ℕ → Type 0
Recent now none limit = ⊥
Recent now (some t) limit = now - t ≤ limit

-- The last repair cycle left no backlog and was healthy, or its backlog is inside the grace.
pub data RepairCounts (policy : HealthPolicy) (input : HealthInputs) : Type 0 where
  clean : input.repair_backlog ≡ 0 → input.repair_healthy ≡ true → RepairCounts policy input
  in_grace :
      {cycles : ℕ}
      → 0 < input.repair_backlog
      → policy.repair_backlog_grace_cycles ≡ some cycles
      → 0 < cycles
      → input.repair_consecutive_unsuccessful_cycles ≤ cycles
      → RepairCounts policy input

pub data RepairIsFresh (policy : HealthPolicy) (input : HealthInputs) : Type 0 where
  not_required : input.repair_required ≡ false → RepairIsFresh policy input
  finished :
      Recent input.now input.repair_completed_at policy.repair_max_age_ms
      → RepairCounts policy input
      → RepairIsFresh policy input

-- Every condition of a completed checkpoint.
pub record IsHealthy (policy : HealthPolicy) (input : HealthInputs) : Type 0 where
  pub checkpoint_seen : NotAfter input.now (completed_at_of input.previous)
  pub storage_seen : NotAfter input.now input.storage_updated_at
  pub repair_seen : NotAfter input.now input.repair_completed_at
  pub helia : input.helia_ready ≡ true
  pub complete : input.startup_complete ≡ true
  pub healthy : input.startup_healthy ≡ true
  pub storage_recent : Recent input.now input.storage_updated_at policy.storage_max_age_ms
  pub reserve : input.storage_reserved_bytes ≤ input.storage_available_bytes
  pub repair : RepairIsFresh policy input
  pub attested : policy.required_peer_count ≤ input.attested_peers

NotAfter-iff : (now : ℕ) (o : Option ℕ) → not_in_future now o ≡ true ↔ NotAfter now o
unfolding not_in_future
NotAfter-iff now none = ((λ e. tt), (λ e. refl))
NotAfter-iff now (some t) = ((λ e. leb→le t now e), (λ h. le→leb t now h))

Recent-iff : (now : ℕ) (o : Option ℕ) (limit : ℕ) → within now o limit ≡ true ↔ Recent now o limit
unfolding within
Recent-iff now none limit = ((λ e. cc e), (λ e. elim e [ ]))
Recent-iff now (some t) limit = ((λ e. leb→le (now - t) limit e), (λ h. le→leb (now - t) limit h))

abbrev counts : HealthPolicy → HealthInputs → Bool
counts policy input =
    if input.repair_backlog == 0
    then input.repair_healthy
    else grace_allows policy.repair_backlog_grace_cycles
        input.repair_consecutive_unsuccessful_cycles

allowed :
    (g : Option ℕ) (cycles : ℕ)
    → grace_allows g cycles ≡ true
    → (n : ℕ) × (g ≡ some n) × (0 < n) × (cycles ≤ n)
unfolding grace_allows
allowed none cycles e = absurd (ground (arith, e))
allowed (some n) cycles e = (n, refl, ground (arith, e), ground (arith, e))

RepairCounts-iff :
    (policy : HealthPolicy) (input : HealthInputs)
    → counts policy input ≡ true ↔ RepairCounts policy input
RepairCounts-iff policy input = (there_is, back)
  where
    there_is : counts policy input ≡ true → RepairCounts policy input
    there_is e = elim (Bool-cases (input.repair_backlog == 0)) [
      | inl z ↦ clean (ground (arith, z)) (rw z at e)
      | inr z ↦
          let (n, g, p, l) =
            allowed policy.repair_backlog_grace_cycles input.repair_consecutive_unsuccessful_cycles
              (rw z at e) in
          in_grace (ground (arith, z)) g p l
    ]

    back : RepairCounts policy input → counts policy input ≡ true
    back (clean z h) = rw (z, h) refl
    back (in_grace b g p l) = unfold grace_allows in rw g (ground (arith, b, p, l))

RepairIsFresh-iff :
    (policy : HealthPolicy) (input : HealthInputs)
    → clock_is_consistent input ≡ true
    → repair_is_fresh policy input ≡ true ↔ RepairIsFresh policy input
unfolding repair_is_fresh
RepairIsFresh-iff policy input clock =
    let recent = Recent-iff input.now input.repair_completed_at policy.repair_max_age_ms in
    let count = RepairCounts-iff policy input in
    (
      (λ e. elim (Bool-cases input.repair_required) [
        | inl r ↦ finished (recent.0 (ground (arith, e, r))) (count.0 (ground (arith, e, r)))
        | inr r ↦ not_required r
      ]),
      (λ (q : RepairIsFresh policy input). elim q [
        | not_required r ↦ rw r refl
        | finished a b ↦ ground (arith, clock, recent.1 a, count.1 b)
      ]),
    )

is_complete-IsHealthy :
    (policy : HealthPolicy) (input : HealthInputs)
    → is_complete policy input ≡ true
    → IsHealthy policy input
unfolding is_complete checks_of prerequisites clock_is_consistent
is_complete-IsHealthy policy input e =
    let seen = NotAfter-iff input.now in
    let clock : clock_is_consistent input ≡ true = ground (arith, e) in
    record {
      checkpoint_seen = (seen (completed_at_of input.previous)).0 (ground (arith, e));
      storage_seen = (seen input.storage_updated_at).0 (ground (arith, e));
      repair_seen = (seen input.repair_completed_at).0 (ground (arith, e));
      helia = ground (arith, e);
      complete = ground (arith, e);
      healthy = ground (arith, e);
      storage_recent = (Recent-iff input.now input.storage_updated_at _).0 (ground (arith, e));
      reserve = ground (arith, e);
      repair = (RepairIsFresh-iff policy input clock).0 (ground (arith, e));
      attested = ground (arith, e);
    }

IsHealthy-is_complete :
    (policy : HealthPolicy) (input : HealthInputs)
    → IsHealthy policy input
    → is_complete policy input ≡ true
unfolding is_complete checks_of prerequisites clock_is_consistent
IsHealthy-is_complete policy input q =
    let seen = NotAfter-iff input.now in
    let a = (seen (completed_at_of input.previous)).1 q.checkpoint_seen in
    let b = (seen input.storage_updated_at).1 q.storage_seen in
    let c = (seen input.repair_completed_at).1 q.repair_seen in
    let clock : clock_is_consistent input ≡ true = rw (a, b, c) refl in
    let fresh = (RepairIsFresh-iff policy input clock).1 q.repair in
    let recent = (Recent-iff input.now input.storage_updated_at _).1 q.storage_recent in
    ground (
      arith,
      a,
      b,
      c,
      q.helia,
      q.complete,
      q.healthy,
      recent,
      fresh,
      le→leb input.storage_reserved_bytes input.storage_available_bytes q.reserve,
      le→leb policy.required_peer_count input.attested_peers q.attested,
    )

-- An attempt reads ready exactly when it is healthy: no observation is from the future, Helia runs,
-- the start-up is complete and was healthy, the storage was measured within its limit and keeps its
-- reserve, enough peers attested, and, where repair is required, the last cycle is recent enough
-- and either left no backlog and was healthy or left a backlog inside the grace. Exactly then a
-- checkpoint is completed.
pub evaluate_health-ready :
    (policy : HealthPolicy) (input : HealthInputs)
    → ((evaluate_health policy input).0.state ≡ ready ↔ IsHealthy policy input)
      × (is_some (evaluate_health policy input).1 ≡ true ↔ IsHealthy policy input)
unfolding evaluate_health state_of completed_of
evaluate_health-ready policy input = elim (Bool-cases (is_complete policy input)) [
  | inl e ↦
      let q = is_complete-IsHealthy policy input e in
      rw e (((λ _. q), (λ _. refl)), ((λ _. q), (λ _. refl)))
  | inr e ↦
      let wrong : IsHealthy policy input → ⊥ = λ q. cc (e, IsHealthy-is_complete policy input q) in
      rw e (
        ((λ h. absurd (not_ready h)), (λ q. absurd (wrong q))),
        ((λ h. cc h), (λ q. absurd (wrong q))),
      )
]
  where
    not_ready :
        (if not input.startup_complete
            then starting
            else if too_old input.now (completed_at_of input.previous) policy.max_checkpoint_age_ms
            then stale
            else degraded)
          ≡ ready
        → ⊥
    not_ready h = ground (arith, h)

checkpoint_round-le : (t i : ℕ) → checkpoint_round t i ≤ t
unfolding checkpoint_round
checkpoint_round-le t i = grind arith

-- The published height never falls, and an attempt that completes no checkpoint leaves it as it was.
pub evaluate_health-height :
    (policy : HealthPolicy) (input : HealthInputs)
    → (height_of input.previous ≤ (evaluate_health policy input).0.height)
      × ((evaluate_health policy input).1 ≡ none
          → (evaluate_health policy input).0.height ≡ height_of input.previous)
unfolding evaluate_health completed_of
evaluate_health-height policy input = ground arith

-- A completed checkpoint starts before it was completed, whatever the clock did since the previous
-- one: it is stamped with the attempt's time, which is not before the previous stamp.
pub evaluate_health-IsOrdered :
    (policy : HealthPolicy) (input : HealthInputs) (c : HealthCheckpoint)
    → AllOrdered input.previous
    → (evaluate_health policy input).1 ≡ some c
    → IsOrdered c × (c.completed_at ≡ input.now)
unfolding evaluate_health completed_of is_complete checks_of prerequisites clock_is_consistent
    not_in_future
evaluate_health-IsOrdered policy input c h e =
    ground (arith, checkpoint_round-le input.now policy.checkpoint_interval_ms)
