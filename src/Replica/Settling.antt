-- ===== src/Replica/Settling.antt =====
-- The end of a prepared copy: `commitReplica`, `restoreReplicaStage` and `abortReplica`
-- (src/storage/replicaStage.ts).
use ipfs_node.Base.Texts.{Text, text, text_eq}
use ipfs_node.Base.{
  ℕ, ◌+◌, Bool, true, false, ◌&&◌, not, Option, none, some, List, [], ◌∷◌, if◌then◌else◌, get_or,
  filter,
}
use ipfs_node.Registry.{
  FileRecord, confirmed, expired, ReplicaStage, ReplicaStageBaseline, contains, set_delete,
  is_confirmed, is_admission_settled,
}
use ipfs_node.Host.{
  Host, Error, failure, aggregate, aggregate_one, Result, Done, done, ok, threw, and_then, or_else,
}
use ipfs_node.FileRegistry.{get, save, remove_record}
use ipfs_node.Lifecycle.{pin_file, unpin_file}
use ipfs_node.Replica.{origin_of, is_stage_owner}
use ipfs_node.Tombstones.{Tombstones, remember_abort}

-- `DEFAULT_ABORT_TOMBSTONE_TTL_MS`
abbrev pub default_abort_tombstone_ttl_ms : ℕ
default_abort_tombstone_ttl_ms = 300000

-- `now` is the caller's, or the clock's.
pub record SettleReplicaOptions : Type 0 where
  pub cid : Text
  pub transaction_id : Text
  pub now : ℕ
  pub tombstone_ttl_ms : Option ℕ
  pub peer_id : Option Text

-- `{ ...origins }` without the transaction, or nothing when that is empty.
unfoldable pub drop_origin : Text → Option (List (Text × Text)) → Option (List (Text × Text))
drop_origin transaction origins =
    elim (filter (λ e. not (text_eq e.0 transaction)) (get_or origins [])) [
      | [] ↦ none
      | e ∷ es ↦ some (e ∷ es)
    ]

-- The record of a committed copy.
unfoldable pub committed_record : FileRecord → ℕ → FileRecord
committed_record current now = record current {
  state = confirmed;
  expires_at = none;
  confirmed_at = some (get_or current.confirmed_at now);
  pinned = true;
  held_locally = true;
  admission_id = none;
  admission_settled_at = none;
  replica_stage = none;
}

-- A copy that some transaction has committed already.
unfoldable pub is_settled_copy : FileRecord → Bool
is_settled_copy r = is_confirmed r.state && (r.pinned && (r.held_locally && is_admission_settled r))

-- `previous ?? { expiresAt: current.expiresAt, confirmedAt: null, ... }`
unfoldable pub baseline_of : FileRecord → Option ReplicaStageBaseline → FileRecord
baseline_of current none = record current {
  state = expired;
  confirmed_at = none;
  pinned = false;
  held_locally = false;
  replica_stage = none;
}
baseline_of current (some b) = record current {
  state = expired;
  expires_at = b.expires_at;
  confirmed_at = b.confirmed_at;
  pinned = false;
  held_locally = false;
  replica_stage = none;
}

-- The record once a transaction has left the stage.
unfoldable pub left_record : Text → FileRecord → ReplicaStage → FileRecord
left_record transaction current stage = record current {
  replica_stage = some (record stage {
    transaction_ids = set_delete transaction stage.transaction_ids;
    origins = drop_origin transaction stage.origins;
  });
}

module _ (h : Host) where
  unfoldable pub commit_staged :
      SettleReplicaOptions
      → FileRecord
      → ReplicaStage
      → h.World
      → h.World × Result (Option FileRecord)
  commit_staged o current stage w =
      if is_stage_owner (origin_of stage.origins o.transaction_id) o.peer_id
      then and_then (save h (committed_record current o.now) w) (λ r after. (after, ok (some r)))
      else (w, threw (failure (text "Replica transaction was staged by another peer")))

  -- The transaction is not among those that prepared the copy.
  unfoldable pub commit_other : Option FileRecord → h.World → h.World × Result (Option FileRecord)
  commit_other none w = (w, threw (failure (text "Replica transaction is not staged")))
  commit_other (some r) w =
      if is_settled_copy r
      then (w, ok (some r))
      else (w, threw (failure (text "Replica transaction is not staged")))

  unfoldable pub commit_found :
      SettleReplicaOptions → Option FileRecord → h.World → h.World × Result (Option FileRecord)
  commit_found o none w = commit_other none w
  commit_found o (some r) w = elim r.replica_stage [
    | none ↦ commit_other (some r) w
    | some stage ↦
        if contains o.transaction_id stage.transaction_ids
        then commit_staged o r stage w
        else commit_other (some r) w
  ]

  unfoldable pub commit_replica :
      SettleReplicaOptions → h.World → h.World × Result (Option FileRecord)
  commit_replica o w = and_then (get h o.cid w) (commit_found o)

  -- The `try` that puts the pin and the staged record back.
  unfoldable pub restage : Bool → FileRecord → h.World → h.World × Result Done
  restage removed current w =
      and_then (if removed then pin_file h false current.cid w else (w, ok false))
        (λ b pinned. and_then (save h current pinned) (λ r after. (after, ok done)))

  unfoldable pub restage_and_throw {ℓ} :
      {A : Type ℓ} → Bool → FileRecord → Error → h.World → h.World × Result A
  restage_and_throw removed current original w =
      let (after, result) = restage removed current w in
      elim result [
        | ok d ↦ (after, threw (aggregate original))
        | threw e ↦ (after, threw (aggregate_one original e))
      ]

  -- The promise of `registry.save` is returned and not awaited, so the `catch` sees only what
  -- `registry.remove` throws.
  unfoldable pub write_baseline :
      Bool
      → FileRecord
      → Option ReplicaStageBaseline
      → Bool
      → h.World
      → h.World × Result (Option FileRecord)
  write_baseline removed current none false w =
      or_else (and_then (remove_record h current.cid w) (λ d after. (after, ok none)))
        (restage_and_throw removed current)
  write_baseline removed current previous keep w =
      and_then (save h (baseline_of current previous) w) (λ r after. (after, ok (some r)))

  -- `stage` is `current.replicaStage`.
  unfoldable pub restore_replica_stage :
      FileRecord
      → Option ReplicaStageBaseline
      → Bool
      → h.World
      → h.World × Result (Option FileRecord)
  restore_replica_stage current previous keep w =
      and_then (unpin_file h current.cid w)
        (λ removed unpinned. write_baseline removed current previous keep unpinned)

  unfoldable pub abort_staged :
      SettleReplicaOptions
      → FileRecord
      → ReplicaStage
      → h.World
      → h.World × Result (Option FileRecord)
  abort_staged o current stage w = elim (set_delete o.transaction_id stage.transaction_ids) [
    | [] ↦ restore_replica_stage current stage.previous false w
    | id ∷ ids ↦
        and_then (save h (left_record o.transaction_id current stage) w)
          (λ r after. (after, ok (some r)))
  ]

  abbrev pub marked_with : SettleReplicaOptions → Tombstones → Tombstones
  marked_with o ts =
      remember_abort o.cid o.transaction_id
        (o.now + get_or o.tombstone_ttl_ms default_abort_tombstone_ttl_ms) o.now o.peer_id ts

  unfoldable pub abort_found :
      SettleReplicaOptions
      → Option FileRecord
      → Tombstones
      → h.World
      → Tombstones × (h.World × Result (Option FileRecord))
  abort_found o none ts w = (marked_with o ts, (w, ok none))
  abort_found o (some r) ts w = elim r.replica_stage [
    | none ↦ (marked_with o ts, (w, ok (some r)))
    | some stage ↦
        if contains o.transaction_id stage.transaction_ids
        then if is_stage_owner (origin_of stage.origins o.transaction_id) o.peer_id
          then (marked_with o ts, abort_staged o r stage w)
          else (ts, (w, threw (failure (text "Replica transaction was staged by another peer"))))
        else (marked_with o ts, (w, ok (some r)))
  ]

  unfoldable pub abort_replica :
      SettleReplicaOptions
      → Tombstones
      → h.World
      → Tombstones × (h.World × Result (Option FileRecord))
  abort_replica o ts w =
      let (known, found) = get h o.cid w in
      elim found [ threw e ↦ (ts, (known, threw e)) | ok current ↦ abort_found o current ts known ]
