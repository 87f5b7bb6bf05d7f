-- ===== src/Config/Copies.antt =====
-- About the settings of the replication that a node accepts (src/storage/config.ts), and the number of
-- copies that the placement takes from them (src/storage/placement.ts).
use ipfs_node.Base.{
  ℕ, ◌≤◌, ◌<◌, Bool, true, false, ◌≡◌, refl, sym, subst, ◌&&◌, not, List, [], ◌∷◌, arith, leb, ltb,
  ◌==◌, if◌then◌else◌,
}
use ipfs_node.Placement.{PlacementTier, copies_from, copies_for_age}
use ipfs_node.Config.{
  Section, TierInput, PlacementSetting, default_placement, tiers, not_an_array, ReplicationInput,
  ReplicationConfig, default_replication_config, Checked, valid, section, optional_boolean,
  optional_string, optional_integer, resolve_tier, resolve_tiers, check_tiers, check_placement,
  resolve_placement, most_copies, resolve_options, resolve_replication_config,
}
use ipfs_node.Config.Ensures.{
  Ensures, passes, stops, bind-Ensures, then-Ensures, fail_if-Ensures, Ensures-valid,
  optional_integer-Ensures,
}

-- Every tier asks for a copy.
abbrev Positive : List PlacementTier → Type 0
Positive [] = Unit {0}
Positive (t ∷ ts) = (1 ≤ t.copies) × Positive ts

-- Every tier begins later than the one before and asks for no more copies.
abbrev Tapers : PlacementTier → List PlacementTier → Type 0
Tapers p [] = Unit {0}
Tapers p (t ∷ ts) = (p.min_age_ms < t.min_age_ms) × (t.copies ≤ p.copies) × Tapers t ts

data IsPlacement : List PlacementTier → Type 0 where
  sound_tiers :
      {first : PlacementTier} {rest : List PlacementTier}
      → first.min_age_ms ≡ 0
      → 1 ≤ first.copies
      → Positive rest
      → Tapers first rest
      → IsPlacement (first ∷ rest)

tier-Ensures :
    (entry : Section TierInput) (i : ℕ) → Ensures (λ t. 1 ≤ t.copies) (resolve_tier entry i)
unfolding resolve_tier
tier-Ensures entry i = then-Ensures (section _ entry _) λ tier.
    then-Ensures (optional_integer tier.min_age_ms _ _ _) λ age.
      bind-Ensures (optional_integer tier.copies _ _ _)
        (optional_integer-Ensures tier.copies _ _ _ (omega arith)) λ copies h. passes h

tiers-Ensures :
    (entries : List (Section TierInput)) (i : ℕ) → Ensures Positive (resolve_tiers entries i)
unfolding resolve_tiers
tiers-Ensures [] i = passes tt
tiers-Ensures (entry ∷ entries) i =
    bind-Ensures (resolve_tier entry i) (tier-Ensures entry i) λ t h.
      bind-Ensures (resolve_tiers entries _) (tiers-Ensures entries _) λ ts hs. passes (h, hs)

check_tiers-Ensures :
    (p : PlacementTier) (ts : List PlacementTier) (i : ℕ)
    → Ensures (λ _. Tapers p ts) (check_tiers p ts i)
unfolding check_tiers
check_tiers-Ensures p [] i = passes tt
check_tiers-Ensures p (t ∷ ts) i = fail_if-Ensures (leb t.min_age_ms p.min_age_ms) _ λ a.
    fail_if-Ensures (ltb p.copies t.copies) _
      λ b. then_both (check_tiers-Ensures t ts _) (ground (arith, a)) (ground (arith, b))
  where
    then_both :
        {m : Checked (Unit {0})}
        → Ensures (λ _. Tapers t ts) m
        → p.min_age_ms < t.min_age_ms
        → t.copies ≤ p.copies
        → Ensures (λ _. Tapers p (t ∷ ts)) m
    then_both (passes h) a b = passes (a, b, h)
    then_both stops a b = stops

check_placement-Ensures :
    (ts : List PlacementTier) → Positive ts → Ensures IsPlacement (check_placement ts)
unfolding check_placement
check_placement-Ensures [] h = stops
check_placement-Ensures (first ∷ rest) (h, hs) =
    fail_if-Ensures (not (first.min_age_ms == 0)) _ λ a.
      bind-Ensures (check_tiers first rest 1) (check_tiers-Ensures first rest 1)
        λ _ ts. passes (sound_tiers (ground (arith, a)) h hs ts)

placement-Ensures :
    (setting : PlacementSetting)
    → Ensures IsPlacement (resolve_placement setting default_replication_config.placement)
unfolding resolve_placement
placement-Ensures default_placement = passes (
    sound_tiers refl (omega arith) (omega arith, (omega arith, tt))
      (omega arith, omega arith, (omega arith, omega arith, tt)))
placement-Ensures not_an_array = stops
placement-Ensures (tiers entries) =
    bind-Ensures (resolve_tiers entries 0) (tiers-Ensures entries 0) check_placement-Ensures

-- The tiers that follow p ask an older file for no more copies than a younger one.
copies_from-le :
    (p : PlacementTier) (ts : List PlacementTier) (less more young old : ℕ)
    → Tapers p ts
    → p.copies ≤ less
    → less ≤ more
    → young ≤ old
    → copies_from less ts old ≤ copies_from more ts young
unfolding copies_from
copies_from-le p [] less more young old h a b c = b
copies_from-le p (t ∷ ts) less more young old (_, f, h) a b c =
    go (λ l m x y. copies_from-le t ts l m young old h x y c) (leb t.min_age_ms old)
      (leb t.min_age_ms young) (λ y. ground (arith, y, c))
  where
    go :
        ((l m : ℕ) → t.copies ≤ l → l ≤ m → copies_from l ts old ≤ copies_from m ts young)
        → (o y : Bool) → (y ≡ true → o ≡ true)
        → copies_from (if o then t.copies else less) ts old
          ≤ copies_from (if y then t.copies else more) ts young
    go rest true true k = rest t.copies t.copies (omega arith) (omega arith)
    go rest true false k = rest t.copies more (omega arith) (omega (arith, f, a, b))
    go rest false true k = cc (k refl)
    go rest false false k = rest less more (omega (arith, f, a)) b

some_copies_from :
    (ts : List PlacementTier) (c age : ℕ) → Positive ts → 1 ≤ c → 1 ≤ copies_from c ts age
unfolding copies_from
some_copies_from [] c age h a = a
some_copies_from (t ∷ ts) c age (f, h) a =
    go (λ d x. some_copies_from ts d age h x) (leb t.min_age_ms age)
  where
    go :
        ((d : ℕ) → 1 ≤ d → 1 ≤ copies_from d ts age)
        → (b : Bool) → 1 ≤ copies_from (if b then t.copies else c) ts age
    go rest true = rest t.copies f
    go rest false = rest c a

fresh_copies_from :
    (p : PlacementTier) (ts : List PlacementTier) (c : ℕ) → Tapers p ts → copies_from c ts 0 ≡ c
unfolding copies_from
fresh_copies_from p [] c h = refl
fresh_copies_from p (t ∷ ts) c (a, _, h) = rw (later, fresh_copies_from t ts c h)
  where
    later : leb t.min_age_ms 0 ≡ false
    later = ground (arith, a)

copies_for_age-cons :
    (first : PlacementTier) (rest : List PlacementTier) (age : ℕ)
    → copies_for_age (first ∷ rest) age ≡ copies_from first.copies rest age
unfolding copies_for_age copies_from
copies_for_age-cons first rest age = go (leb first.min_age_ms age)
  where
    go :
        (b : Bool)
        → copies_from (if b then first.copies else first.copies) rest age
          ≡ copies_from first.copies rest age
    go true = refl
    go false = refl

-- What an accepted quorum respects.
record QuorumFits (c : ReplicationConfig) : Type 0 where
  sound : IsPlacement c.placement
  some_quorum : 1 ≤ c.ack_quorum
  in_reach : c.ack_quorum ≤ most_copies c.placement
  strict : c.require_quorum_on_upload ≡ true → 2 ≤ c.ack_quorum

record HasPlacement (ts : List PlacementTier) (c : ReplicationConfig) : Type 0 where
  placed : c.placement ≡ ts
  counted : 1 ≤ c.ack_quorum

options-Ensures :
    (input : ReplicationInput) (ts : List PlacementTier)
    → Ensures (HasPlacement ts) (resolve_options input default_replication_config ts)
unfolding resolve_options
options-Ensures input ts = then-Ensures (optional_boolean input.enabled _ _) λ enabled.
    bind-Ensures (optional_integer input.ack_quorum _ _ _)
      (optional_integer-Ensures input.ack_quorum _ _ _ (omega arith))
      λ quorum q. then-Ensures (optional_boolean input.require_quorum_on_upload _ _) λ strict.
        then-Ensures (optional_integer input.request_timeout_ms _ _ _) λ timeout.
          then-Ensures (optional_boolean input.repair_enabled _ _) λ repair.
            then-Ensures (optional_string input.repair_schedule _ _) λ schedule.
              then-Ensures (optional_integer input.repair_batch_delay_ms _ _ _) λ delay.
                then-Ensures (optional_integer input.repair_probe_concurrency _ _ _)
                  λ probes. passes (record { placed = refl; counted = q })

replication-Ensures :
    (raw : Section ReplicationInput) → Ensures QuorumFits (resolve_replication_config raw)
unfolding resolve_replication_config
replication-Ensures raw = then-Ensures (section _ raw _) λ input.
    bind-Ensures (resolve_placement input.placement _) (placement-Ensures input.placement)
      λ ts sound. bind-Ensures (resolve_options input _ ts) (options-Ensures input ts) λ c h.
        fail_if-Ensures (ltb (most_copies ts) c.ack_quorum) _ λ a.
          fail_if-Ensures (c.require_quorum_on_upload && ltb c.ack_quorum 2) _ λ b. passes (record {
            sound = subst IsPlacement (sym h.placed) sound;
            some_quorum = h.counted;
            in_reach = rw h.placed (ground (arith, a));
            strict = λ s. ground (arith, b, s);
          })

-- What the placement does with sound tiers.
tiers_taper :
    (ts : List PlacementTier) (young old : ℕ)
    → IsPlacement ts
    → young ≤ old
    → (1 ≤ copies_for_age ts old)
      × (copies_for_age ts old ≤ copies_for_age ts young)
      × (copies_for_age ts 0 ≡ most_copies ts)
unfolding most_copies
tiers_taper [] young old h o = elim h [ ]
tiers_taper (first ∷ rest) young old (sound_tiers z f hs h) o =
    rw
      (
        copies_for_age-cons first rest old,
        copies_for_age-cons first rest young,
        copies_for_age-cons first rest 0,
      )
      (
        some_copies_from rest first.copies old hs f,
        copies_from-le first rest first.copies first.copies young old h (omega arith) (omega arith)
            o,
        fresh_copies_from first rest first.copies h,
      )

-- Whatever the file holds: under settings that are accepted, the placement asks for at least one copy
-- of a file of any age and for no more copies of an older file than of a younger one; the quorum is at
-- least one and no more than the copies of a fresh file, and at least two where uploads insist on it.
pub resolve_replication_config-copies :
    (raw : Section ReplicationInput) (c : ReplicationConfig) (young old : ℕ)
    → resolve_replication_config raw ≡ valid c
    → young ≤ old
    → (1 ≤ copies_for_age c.placement old)
      × (copies_for_age c.placement old ≤ copies_for_age c.placement young)
      × (1 ≤ c.ack_quorum)
      × (c.ack_quorum ≤ copies_for_age c.placement 0)
      × (c.require_quorum_on_upload ≡ true → 2 ≤ c.ack_quorum)
resolve_replication_config-copies raw c young old h o =
    let fits = Ensures-valid (resolve_replication_config raw) (replication-Ensures raw) h in
    let (some, fewer, fresh) = tiers_taper c.placement young old fits.sound o in
    (
      some,
      fewer,
      fits.some_quorum,
      subst (λ n. c.ack_quorum ≤ n) (sym fresh) fits.in_reach,
      fits.strict,
    )
