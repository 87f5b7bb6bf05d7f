-- ===== src/Replica.antt =====
-- src/storage/replicaStage.ts: a copy that another node prepares for an upload, and that the upload
-- then commits or aborts. Each function runs while the CID's lock is held; the abort markers are those
-- of Tombstones.
pub mod Settling
pub mod Diagram
pub mod Outcome
pub mod Moves
pub mod Stage
pub mod Commit
pub mod Restoring
pub mod Abort
pub mod Sequence
pub mod Protection
pub mod Late
mod Tests
use ipfs_node.Base.Texts.{Text, text, text_eq}
use ipfs_node.Base.{
  ℕ, ◌+◌, max, Bool, true, false, ◌||◌, not, Option, none, some, List, [], ◌∷◌, ◌++◌, if◌then◌else◌,
  get_or,
}
use ipfs_node.Registry.{
  FileRecord, FileState, temporary, confirmed, expired, ReplicaStage, contains, is_temporary,
  is_confirmed, is_admission_settled, protected_storage_bytes,
}
use ipfs_node.Host.{Host, Error, failure, Result, ok, threw, Stats, and_then, or_else}
use ipfs_node.FileRegistry.{get, save}
use ipfs_node.Lifecycle.{
  pin_file, unpin_file, is_directly_pinned, restore_record, rollback_error, error_of,
}
use ipfs_node.Tombstones.{Tombstones, was_aborted}

-- `object[key] = value`: a key that is there keeps its place.
unfoldable pub set_origin : Text → Text → List (Text × Text) → List (Text × Text)
set_origin transaction peer [] = (transaction, peer) ∷ []
set_origin transaction peer (e ∷ es) =
    if text_eq e.0 transaction then (transaction, peer) ∷ es else e ∷ set_origin transaction peer es

unfoldable pub with_origin :
    Option (List (Text × Text)) → Text → Option Text → Option (List (Text × Text))
with_origin previous transaction none = previous
with_origin previous transaction (some peer) =
    some (set_origin transaction peer (get_or previous []))

unfoldable pub find_origin : Text → List (Text × Text) → Option Text
find_origin transaction [] = none
find_origin transaction (e ∷ es) =
    if text_eq e.0 transaction then some e.1 else find_origin transaction es

-- `origins?.[transactionId]`
unfoldable pub origin_of : Option (List (Text × Text)) → Text → Option Text
origin_of none transaction = none
origin_of (some es) transaction = find_origin transaction es

-- Whether `assertStageOwner` lets the caller pass.
unfoldable pub is_stage_owner : Option Text → Option Text → Bool
is_stage_owner (some origin) (some peer) = text_eq origin peer
is_stage_owner _ _ = true

-- `now` is the caller's, or the clock's.
pub record ReplicaStageTarget : Type 0 where
  pub cid : Text
  pub transaction_id : Text
  pub temporary_ttl_ms : ℕ
  pub now : ℕ
  pub origin_peer_id : Option Text

pub record ReplicaStageResult : Type 0 where
  pub stored : FileRecord
  pub staged : Bool

-- The record of a durable pin that was there before.
unfoldable pub stable_record : ReplicaStageTarget → Option FileRecord → Stats → FileRecord
stable_record o previous stats = record {
  cid = o.cid;
  name = elim previous [ none ↦ o.cid | some r ↦ r.name ];
  state = confirmed;
  created_at = elim previous [ none ↦ o.now | some r ↦ r.created_at ];
  expires_at = none;
  confirmed_at = some (elim previous [ none ↦ o.now | some r ↦ get_or r.confirmed_at o.now ]);
  file_size = stats.size;
  stored_bytes =
      max (elim previous [ none ↦ 0 | some r ↦ r.stored_bytes ]) stats.deduplicated_dag_size;
  protected_bytes = some (
      max (elim previous [ none ↦ 0 | some r ↦ protected_storage_bytes r ])
        stats.deduplicated_dag_size);
  pinned = true;
  held_locally = true;
  replicas = elim previous [ none ↦ [] | some r ↦ r.replicas ];
  admission_id = elim previous [ none ↦ none | some r ↦ r.admission_id ];
  admission_settled_at = elim previous [ none ↦ none | some r ↦ r.admission_settled_at ];
  replica_stage = none;
  revision = none;
}

-- The stage of a new copy: its transaction, and the baseline that an abort restores.
unfoldable pub new_stage : ReplicaStageTarget → Option FileRecord → ReplicaStage
unfolding with_origin
new_stage o previous = record {
  transaction_ids = o.transaction_id ∷ [];
  origins = with_origin none o.transaction_id o.origin_peer_id;
  previous = elim previous [
    | none ↦ none
    | some r ↦ some (record { expires_at = r.expires_at; confirmed_at = r.confirmed_at })
  ];
}

-- The record of a new copy.
unfoldable pub staged_record : ReplicaStageTarget → Option FileRecord → Stats → FileRecord
unfolding new_stage
staged_record o previous stats = record {
  cid = o.cid;
  name = elim previous [ none ↦ o.cid | some r ↦ r.name ];
  state = temporary;
  created_at = elim previous [ none ↦ o.now | some r ↦ r.created_at ];
  expires_at = some (o.now + o.temporary_ttl_ms);
  confirmed_at = none;
  file_size = stats.size;
  stored_bytes =
      max (elim previous [ none ↦ 0 | some r ↦ r.stored_bytes ]) stats.deduplicated_dag_size;
  protected_bytes = some (
      max (elim previous [ none ↦ 0 | some r ↦ protected_storage_bytes r ])
        stats.deduplicated_dag_size);
  pinned = true;
  held_locally = true;
  replicas = elim previous [ none ↦ [] | some r ↦ r.replicas ];
  admission_id = elim previous [ none ↦ none | some r ↦ r.admission_id ];
  admission_settled_at = elim previous [ none ↦ none | some r ↦ r.admission_settled_at ];
  replica_stage = some (new_stage o previous);
  revision = none;
}

-- The stage after a transaction has joined it.
unfoldable pub joined_stage : ReplicaStageTarget → ReplicaStage → ReplicaStage
unfolding with_origin
joined_stage o stage =
    if contains o.transaction_id stage.transaction_ids then stage else record stage {
      transaction_ids = stage.transaction_ids ++ o.transaction_id ∷ [];
      origins = with_origin stage.origins o.transaction_id o.origin_peer_id;
    }

unfoldable pub joined_record : ReplicaStageTarget → FileRecord → ReplicaStage → FileRecord
unfolding joined_stage
joined_record o previous stage = record previous {
  state = temporary;
  expires_at = some (max (get_or previous.expires_at 0) (o.now + o.temporary_ttl_ms));
  pinned = true;
  held_locally = true;
  replica_stage = some (joined_stage o stage);
}

-- What may not be staged over: an unconfirmed upload, or one whose token is not settled.
unfoldable pub belongs_to_upload : Option FileRecord → Bool
belongs_to_upload none = false
belongs_to_upload (some r) = is_temporary r.state || not (is_admission_settled r)

-- `previous?.state === 'confirmed'`
unfoldable pub was_confirmed : Option FileRecord → Bool
was_confirmed none = false
was_confirmed (some r) = is_confirmed r.state

-- `previous?.replicaStage`
unfoldable pub stage_of : Option FileRecord → Option ReplicaStage
stage_of none = none
stage_of (some r) = r.replica_stage

module _ (h : Host) where
  unfoldable pub unpin_created : Bool → Text → h.World → h.World × Result Bool
  unpin_created created cid w = if created then unpin_file h cid w else (w, ok false)

  unfoldable pub restore_stage_write {ℓ} :
      {A : Type ℓ} → Text → Option FileRecord → Bool → Error → h.World → h.World × Result A
  restore_stage_write cid previous created original w =
      let (unpinned, first) = unpin_created created cid w in
      let (after, second) = restore_record h cid previous unpinned in
      (after, threw (rollback_error original (error_of first) (error_of second)))

  -- The stat and the write of a copy that is pinned by now.
  unfoldable pub measure_and_save :
      Text → (Stats → FileRecord) → h.World → h.World × Result FileRecord
  measure_and_save cid describe w =
      and_then (h.stat cid w) (λ stats measured. save h (describe stats) measured)

  -- A pin, and then a record of it, or the baseline.
  unfoldable pub pin_and_save :
      Text
      → Option FileRecord
      → (Stats → FileRecord)
      → Bool
      → h.World
      → h.World × Result ReplicaStageResult
  pin_and_save cid previous describe staged w = and_then (pin_file h false cid w) (λ created pinned.
      or_else
        (and_then (measure_and_save cid describe pinned)
          (λ r after. (after, ok (record { stored = r; staged = staged }))))
        (restore_stage_write cid previous created))

  -- A transaction that joins a copy which is prepared already.
  unfoldable pub join_stage :
      ReplicaStageTarget → FileRecord → ReplicaStage → h.World → h.World × Result ReplicaStageResult
  join_stage o previous stage w =
      if not (contains o.transaction_id stage.transaction_ids)
        || is_stage_owner (origin_of stage.origins o.transaction_id) o.origin_peer_id
      then and_then (pin_file h false o.cid w) (λ created pinned.
        or_else
          (and_then (save h (joined_record o previous stage) pinned)
            (λ r after. (after, ok (record { stored = r; staged = true }))))
          (restore_stage_write o.cid (some previous) false))
      else (w, threw (failure (text "Replica transaction was staged by another peer")))

  -- A copy that is not prepared yet.
  unfoldable pub begin_stage :
      ReplicaStageTarget → Option FileRecord → h.World → h.World × Result ReplicaStageResult
  begin_stage o previous w =
      if belongs_to_upload previous
      then (w, threw (failure (text "CID belongs to a local upload")))
      else and_then (is_directly_pinned h o.cid w) (λ pinned known.
        if pinned || was_confirmed previous
        then pin_and_save o.cid previous (stable_record o previous) false known
        else pin_and_save o.cid previous (staged_record o previous) true known)

  unfoldable pub stage_found :
      ReplicaStageTarget → Option FileRecord → h.World → h.World × Result ReplicaStageResult
  stage_found o none w = begin_stage o none w
  stage_found o (some r) w = elim r.replica_stage [
    | none ↦ begin_stage o (some r) w
    | some stage ↦ join_stage o r stage w
  ]

  unfoldable pub stage_replica :
      ReplicaStageTarget → Tombstones → h.World → Tombstones × (h.World × Result ReplicaStageResult)
  stage_replica o ts w =
      let (kept, aborted) = was_aborted o.cid o.transaction_id o.origin_peer_id o.now ts in
      if aborted
      then (kept, (w, threw (failure (text "Replica transaction was already aborted"))))
      else (kept, and_then (get h o.cid w) (stage_found o))
