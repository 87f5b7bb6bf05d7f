-- ===== src/Replication/Tests.antt =====
-- The theorems on replication at a concrete upload, and two runs of it.
use ipfs_node.Config.{default_replication_config}
use ipfs_node.Base.Sort.{sort, insert}
use ipfs_node.Base.Texts.{Text, text, text_eq, text_lt}
use ipfs_node.Base.{
  ℕ, ◌+◌, ◌≤◌, ◌≡◌, ◌≢◌, ◌↔◌, refl, true, false, none, some, [], ◌∷◌, In, length, filter, Distinct,
}
use ipfs_node.Registry.{contains}
use ipfs_node.Placement.{
  place_file, rank_holders, ranks_before, unique, copies_for_age, copies_from, effective_copies,
  storage_targets,
}
use ipfs_node.Replication.{
  ReplicationPeer, ReplicateOptions, StoreAnswer, plain, stored, cached, required_acks, knows_peer,
  collect_peers, distinct_peers, peer_ids, ack_of, cache_ack, placement_of, targets_of,
  first_attempts, widened_attempts, extra_peers, find_peers, quorum_report, replicate,
}
use ipfs_node.Replication.Quorum.{stored_by, quorum_is_honest}
use ipfs_node.Replication.Reachable.{quorum_is_reachable}

abbrev toy_score : Text → Text → ℕ
toy_score peer cid = length peer

abbrev upload : (ReplicationPeer → StoreAnswer) → ReplicateOptions
upload answer = record {
  cid = text "file";
  age_ms = 0;
  self_peer_id = text "a";
  peers =
      record { name = text "B"; peer_id = text "bb" }
      ∷ record { name = text "B2"; peer_id = text "bb" }
      ∷ record { name = text "C"; peer_id = text "ccc" }
      ∷ [];
  config = record default_replication_config {
    enabled = true;
    ack_quorum = 2;
    placement = record { min_age_ms = 0; copies = 2 } ∷ [];
  };
  store = answer;
  cache_only = some (λ p. none);
}

abbrev all_store : ReplicateOptions
all_store = upload (λ p. plain stored)

abbrev all_cache : ReplicateOptions
all_cache = upload (λ p. plain cached)

-- Two addresses of one peer are one copy; a copy that is only cached is not one.
replicate_runs :
    ((replicate toy_score all_store).replicas ≡ text "B" ∷ text "C" ∷ [])
    × ((replicate toy_score all_cache).cached ≡ text "B" ∷ text "C" ∷ [])
    × ((replicate toy_score all_cache).satisfied ≡ false)
unfolding place_file rank_holders ranks_before sort insert unique copies_for_age copies_from
    effective_copies storage_targets required_acks knows_peer collect_peers distinct_peers ack_of
    cache_ack placement_of targets_of first_attempts widened_attempts extra_peers find_peers
    quorum_report replicate contains text_eq text_lt
replicate_runs = (refl, refl, refl)

quorum_is_honest_example :
    let report = replicate toy_score all_store in
    (report.acknowledged
      ≡ length (filter (λ p. stored_by (all_store.store p)) (targets_of toy_score all_store)) + 1)
    × Distinct (peer_ids (targets_of toy_score all_store))
    × ((p : ReplicationPeer)
        → In p (targets_of toy_score all_store)
        → In p.peer_id (placement_of toy_score all_store).holders
          × (p.peer_id ≢ all_store.self_peer_id))
    × ((report.satisfied ≡ true) ↔ (report.required ≤ report.acknowledged))
quorum_is_honest_example = quorum_is_honest toy_score all_store refl

quorum_is_reachable_example :
    let report = replicate toy_score all_store in
    (1 ≤ report.required)
    × (report.required ≤ report.copies)
    × (((p : ReplicationPeer)
          → In p (targets_of toy_score all_store)
          → stored_by (all_store.store p) ≡ true)
        → report.satisfied ≡ true)
quorum_is_reachable_example = quorum_is_reachable toy_score all_store refl
