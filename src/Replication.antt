-- ===== src/Replication.antt =====
-- src/storage/replication.ts: asking the designated nodes for a copy, and counting the answers.
-- `options.store` and `options.cacheOnly` are callbacks; here they are functions that give each peer's
-- answer. The requests of one `Promise.all` are independent, and its results keep the order of the peers.
pub mod Quorum
pub mod Reachable
mod Tests
use ipfs_node.Base.Texts.{Text, text, text_eq}
use ipfs_node.Base.{
  ℕ, suc, ◌+◌, max, min, Bool, true, false, ◌&&◌, not, Option, none, some, List, [], ◌∷◌, ◌++◌, map,
  ltb, leb, any, filter, length, take, if◌then◌else◌, get_or, is_none,
}
use ipfs_node.Config.{ReplicationConfig}
use ipfs_node.Registry.{contains}
use ipfs_node.Placement.{
  Placement, PlacementTier, PlacementInput, place_file, rank_holders, storage_targets,
}

-- `CACHE_WIDENING`
abbrev pub cache_widening : ℕ
cache_widening = 2

-- The address of a peer is only passed on to the callbacks, so it is left out.
pub record ReplicationPeer : Type 0 where
  pub name : Text
  pub peer_id : Text

pub data PlacementOutcome : Type 0 where
  stored cached : PlacementOutcome

pub record ReplicationAck : Type 0 where
  pub node : Text
  pub peer_id : Text
  pub succeeded : Bool
  pub outcome : Option PlacementOutcome
  pub staged : Option Bool
  pub error : Option Text

-- `outcome : none` is the outcome `'failed'`.
pub record ReplicationStoreResult : Type 0 where
  pub outcome : Option PlacementOutcome
  pub staged : Option Bool
  pub error : Option Text

-- What a callback that asks for a copy does: it returns an outcome, a result, or throws a message.
pub data StoreAnswer : Type 0 where
  plain : PlacementOutcome → StoreAnswer
  answered : ReplicationStoreResult → StoreAnswer
  thrown : Text → StoreAnswer

pub data ReplicationMode : Type 0 where
  quorum best_effort : ReplicationMode

pub record ReplicationReport : Type 0 where
  pub mode : ReplicationMode
  pub desired_copies : ℕ
  pub copies : ℕ
  pub required : ℕ
  pub acknowledged : ℕ
  pub replicas : List Text
  pub cached : List Text
  pub satisfied : Bool
  pub network_too_small : Bool
  pub attempts : List ReplicationAck

pub record ReplicateOptions : Type 0 where
  pub cid : Text
  pub age_ms : ℕ
  pub self_peer_id : Text
  pub peers : List ReplicationPeer
  pub config : ReplicationConfig
  pub store : ReplicationPeer → StoreAnswer
  -- `none` in the answer is success, `some` the message thrown.
  pub cache_only : Option (ReplicationPeer → Option Text)

unfoldable pub required_acks : ReplicationConfig → Placement → ℕ
required_acks config placement = max 1 (min config.ack_quorum placement.copies)

unfoldable pub knows_peer : Text → List ReplicationPeer → Bool
knows_peer id = any (λ p. text_eq p.peer_id id)

-- The loop of `distinctPeers`, with the map's values so far.
unfoldable pub collect_peers :
    Text → List ReplicationPeer → List ReplicationPeer → List ReplicationPeer
unfolding knows_peer
collect_peers self found [] = found
collect_peers self found (p ∷ ps) =
    collect_peers self
      (if not (text_eq p.peer_id self) && not (knows_peer p.peer_id found)
        then found ++ p ∷ []
        else found)
      ps

unfoldable pub distinct_peers : List ReplicationPeer → Text → List ReplicationPeer
distinct_peers peers self = collect_peers self [] peers

abbrev pub peer_ids : List ReplicationPeer → List Text
peer_ids = map (λ p. p.peer_id)

unfoldable pub ack_of : ReplicationPeer → StoreAnswer → ReplicationAck
ack_of p (plain o) = record {
  node = p.name;
  peer_id = p.peer_id;
  succeeded = true;
  outcome = some o;
  staged = none;
  error = none;
}
ack_of p (thrown e) = record {
  node = p.name;
  peer_id = p.peer_id;
  succeeded = false;
  outcome = none;
  staged = none;
  error = some e;
}
ack_of p (answered r) = elim r.outcome [
  | none ↦ record {
    node = p.name;
    peer_id = p.peer_id;
    succeeded = false;
    outcome = none;
    staged = r.staged;
    error = some (get_or r.error (text "Replication store failed"));
  }
  | some o ↦ record {
    node = p.name;
    peer_id = p.peer_id;
    succeeded = true;
    outcome = some o;
    staged = r.staged;
    error = none;
  }
]

unfoldable pub cache_ack : ReplicationPeer → Option Text → ReplicationAck
cache_ack p none = record {
  node = p.name;
  peer_id = p.peer_id;
  succeeded = true;
  outcome = some cached;
  staged = none;
  error = none;
}
cache_ack p (some e) = record {
  node = p.name;
  peer_id = p.peer_id;
  succeeded = false;
  outcome = none;
  staged = none;
  error = some e;
}

abbrev pub is_stored : Option PlacementOutcome → Bool
is_stored (some stored) = true
is_stored _ = false

abbrev pub is_cached : Option PlacementOutcome → Bool
is_cached (some cached) = true
is_cached _ = false

abbrev pub nodes : List ReplicationAck → List Text
nodes = map (λ a. a.node)

-- `peers.find((peer) => peer.peerId === peerId)` and the filter of what it does not find.
unfoldable pub find_peers : List ReplicationPeer → List Text → List ReplicationPeer
find_peers peers [] = []
find_peers peers (id ∷ ids) =
    take 1 (filter (λ p. text_eq p.peer_id id) peers) ++ find_peers peers ids

module _ (score : Text → Text → ℕ) where
  unfoldable pub placement_of : ReplicateOptions → Placement
  placement_of o = place_file score (record {
    cid = o.cid;
    age_ms = o.age_ms;
    tiers = o.config.placement;
    self_peer_id = o.self_peer_id;
    peer_ids = peer_ids (distinct_peers o.peers o.self_peer_id);
  })

  unfoldable pub targets_of : ReplicateOptions → List ReplicationPeer
  targets_of o =
      filter (λ p. contains p.peer_id (storage_targets (placement_of o) o.self_peer_id))
        (distinct_peers o.peers o.self_peer_id)

  -- The peers asked for an unpinned copy when nobody pinned the file.
  unfoldable pub extra_peers : ReplicateOptions → List ReplicationPeer
  unfolding find_peers
  extra_peers o =
      let peers = distinct_peers o.peers o.self_peer_id in
      let tried = peer_ids (targets_of o) in
      find_peers peers (
        take cache_widening
          (filter (λ id. not (contains id tried)) (rank_holders score o.cid (peer_ids peers))))

  unfoldable pub first_attempts : ReplicateOptions → List ReplicationAck
  first_attempts o = map (λ p. ack_of p (o.store p)) (targets_of o)

  abbrev no_replicas : List ReplicationAck → Bool
  no_replicas acks = leb (length (filter (λ a. is_stored a.outcome) acks)) 0

  unfoldable pub widened_attempts : ReplicateOptions → List ReplicationAck
  widened_attempts o =
      if no_replicas (first_attempts o)
        && ltb 0 (length (filter (λ a. is_cached a.outcome) (first_attempts o)))
      then elim o.cache_only [
        | none ↦ []
        | some ask ↦ map (λ p. cache_ack p (ask p)) (extra_peers o)
      ]
      else []

  best_effort_report : ReplicationReport
  best_effort_report = record {
    mode = best_effort;
    desired_copies = 1;
    copies = 1;
    required = 1;
    acknowledged = 1;
    replicas = [];
    cached = [];
    satisfied = true;
    network_too_small = true;
    attempts = [];
  }

  unfoldable pub quorum_report : ReplicateOptions → ReplicationReport
  quorum_report o =
      let first = first_attempts o in
      let widened = widened_attempts o in
      let replicas = nodes (filter (λ a. is_stored a.outcome) first) in
      let acknowledged = length replicas + 1 in
      let required = required_acks o.config (placement_of o) in
      record {
        mode = quorum;
        desired_copies = (placement_of o).desired_copies;
        copies = (placement_of o).copies;
        required = required;
        acknowledged = acknowledged;
        replicas = replicas;
        cached =
            nodes (filter (λ a. is_cached a.outcome) first)
            ++ nodes (filter (λ a. is_cached a.outcome) widened);
        satisfied = leb required acknowledged;
        network_too_small = (placement_of o).network_too_small;
        attempts = first ++ widened;
      }

  unfoldable pub replicate : ReplicateOptions → ReplicationReport
  unfolding best_effort_report quorum_report
  replicate o = if o.config.enabled then quorum_report o else best_effort_report

unfoldable pub is_under_replicated : ℕ → Placement → Text → Bool
is_under_replicated acknowledged placement self =
    ltb acknowledged (length (storage_targets placement self))
