-- ===== src/Replica/Late.antt =====
-- About a stage that arrives after its transaction was aborted (src/storage/replicaStage.ts).
use ipfs_node.Base.Texts.{Text, text}
use ipfs_node.Base.{
  ℕ, ◌+◌, ◌<◌, Bool, true, false, ◌≡◌, refl, sym, subst, ◌⊎◌, Option, none, some, if◌then◌else◌,
  get_or,
}
use ipfs_node.Registry.{FileRecord, ReplicaStage, contains}
use ipfs_node.Host.{Host, failure, Result, ok, threw}
use ipfs_node.FileRegistry.{get}
use ipfs_node.Tombstones.{Tombstones, was_aborted, transaction_key}
use ipfs_node.Tombstones.Passing.{
  Passing, Holds, Passing-Holds, remember_abort-Holds, Holds-was_aborted,
}
use ipfs_node.Replica.{ReplicaStageTarget, is_stage_owner, origin_of, stage_replica}
use ipfs_node.Replica.Settling.{
  SettleReplicaOptions, default_abort_tombstone_ttl_ms, marked_with, abort_staged, abort_found,
  abort_replica,
}

abbrev pub is_ok {ℓ} : {A : Type ℓ} → Result A → Bool
is_ok (ok a) = true
is_ok (threw e) = false

-- When the marker of an abort expires.
abbrev pub forgotten_at : SettleReplicaOptions → ℕ
forgotten_at o = o.now + get_or o.tombstone_ttl_ms default_abort_tombstone_ttl_ms

module _ (h : Host) (o : SettleReplicaOptions) where
  abbrev answer_on :
      FileRecord
      → Tombstones
      → h.World
      → ReplicaStage
      → Bool
      → Bool
      → Tombstones × (h.World × Result (Option FileRecord))
  answer_on r ts w stage member owner =
      if member
      then if owner
        then (marked_with h o ts, abort_staged h o r stage w)
        else (ts, (w, threw (failure (text "Replica transaction was staged by another peer"))))
      else (marked_with h o ts, (w, ok (some r)))

  marked_on :
      (r : FileRecord) (ts : Tombstones) (w : h.World) (s : ReplicaStage) (member owner : Bool)
      → is_ok (answer_on r ts w s member owner).1.1 ≡ true
      → (answer_on r ts w s member owner).0 ≡ marked_with h o ts
  marked_on r ts w s true true e = refl
  marked_on r ts w s true false e = cc
  marked_on r ts w s false owner e = refl

  abbrev answer :
      FileRecord
      → Tombstones
      → h.World
      → Option ReplicaStage
      → Tombstones × (h.World × Result (Option FileRecord))
  answer r ts w none = (marked_with h o ts, (w, ok (some r)))
  answer r ts w (some stage) =
      answer_on r ts w stage (contains o.transaction_id stage.transaction_ids)
        (is_stage_owner (origin_of stage.origins o.transaction_id) o.peer_id)

  -- An abort that returns has left its marker.
  abort_found-marked :
      (found : Option FileRecord) (ts : Tombstones) (w : h.World)
      → is_ok (abort_found h o found ts w).1.1 ≡ true
      → (abort_found h o found ts w).0 ≡ marked_with h o ts
  unfolding abort_found
  abort_found-marked none ts w e = refl
  abort_found-marked (some r) ts w e = go r.replica_stage e
    where
      go :
          (s : Option ReplicaStage)
          → is_ok (answer r ts w s).1.1 ≡ true
          → (answer r ts w s).0 ≡ marked_with h o ts
      go none x = refl
      go (some s) x = marked_on r ts w s _ _ x

  abbrev after_read :
      Tombstones
      → h.World × Result (Option FileRecord)
      → Tombstones × (h.World × Result (Option FileRecord))
  after_read ts (known, threw x) = (ts, (known, threw x))
  after_read ts (known, ok current) = abort_found h o current ts known

  abort_replica-marked :
      (ts : Tombstones) (w : h.World)
      → is_ok (abort_replica h o ts w).1.1 ≡ true
      → (abort_replica h o ts w).0 ≡ marked_with h o ts
  unfolding abort_replica
  abort_replica-marked ts w e = go (get h o.cid w) e
    where
      go :
          (m : h.World × Result (Option FileRecord))
          → is_ok (after_read ts m).1.1 ≡ true
          → (after_read ts m).0 ≡ marked_with h o ts
      go (known, threw x) y = cc
      go (known, ok found) y = abort_found-marked found ts known y

  -- A transaction that is found aborted is refused.
  refused :
      (target : ReplicaStageTarget) (marks : Tombstones) (later : h.World)
      → (was_aborted target.cid target.transaction_id target.origin_peer_id target.now marks).1
        ≡ true
      → (stage_replica h target marks later).1
        ≡ (later, threw (failure (text "Replica transaction was already aborted")))
  unfolding stage_replica
  refused target marks later e = rw e

  -- The marker that the abort leaves.
  abbrev pub marker : Text × ℕ
  marker = (transaction_key o.cid o.transaction_id o.peer_id, forgotten_at o)

  -- After an abort that returned, whose marker has a lifetime above zero, and until the marker
  -- expires, a stage of the same transaction throws and changes nothing: a stage by the same peer,
  -- one that names none, and any if the abort itself named none. In between anything may happen to
  -- the records and the pins, and to the markers of the running process other stages that ask for
  -- them and aborts of other transactions, as long as each such abort finds fewer markers than the
  -- bound.
  pub abort_replica-stage_replica :
      (target : ReplicaStageTarget) (ts us : Tombstones) (w later : h.World)
      → is_ok (abort_replica h o ts w).1.1 ≡ true
      → Passing marker (abort_replica h o ts w).0 us
      → target.cid ≡ o.cid
      → target.transaction_id ≡ o.transaction_id
      → (target.origin_peer_id ≡ none) ⊎ (target.origin_peer_id ≡ o.peer_id) ⊎ (o.peer_id ≡ none)
      → o.now < forgotten_at o
      → target.now < forgotten_at o
      → (stage_replica h target us later).1
        ≡ (later, threw (failure (text "Replica transaction was already aborted")))
  abort_replica-stage_replica target ts us w later returned passed cid transaction peers before
        after =
      let held : Holds marker (abort_replica h o ts w).0 =
        subst (Holds marker) (sym (abort_replica-marked ts w returned)) (
          remember_abort-Holds o.cid o.transaction_id o.peer_id (forgotten_at o) o.now ts before) in
      refused target us later (
        rw (cid, transaction)
          (Holds-was_aborted o.cid o.transaction_id o.peer_id target.origin_peer_id (forgotten_at o)
            target.now us after peers (Passing-Holds marker _ us passed held)))
