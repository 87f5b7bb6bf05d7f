-- ===== src/Replica/Stage.antt =====
-- About `stageReplica` (src/storage/replicaStage.ts) as a move of a copy.
use ipfs_node.Base.Texts.{text}
use ipfs_node.Base.{
  Bool, true, false, ◌≡◌, refl, sym, ap, subst, ◌∙◌, inl, inr, ◌||◌, not, Option, none, some, [],
  ◌∷◌, is_some, arith, if◌then◌else◌, Bool-cases,
}
use ipfs_node.Registry.{FileRecord, ReplicaStage, contains}
use ipfs_node.Host.{Host, Stats, failure, Result, threw, and_then}
use ipfs_node.FileRegistry.{get}
use ipfs_node.Tombstones.{Tombstones, was_aborted}
use ipfs_node.Host.Laws.{on_ok, on_threw, HostView, HostLaws}
use ipfs_node.Lifecycle.Steps.{
  and_then-Post, or_else-Post, if-Post, reads_alike, pin_file-Post, is_directly_pinned-Post,
}
use ipfs_node.Replica.{
  ReplicaStageTarget, ReplicaStageResult, joined_record, joined_stage, stable_record, staged_record,
  new_stage, belongs_to_upload, was_confirmed, join_stage, begin_stage, is_stage_owner, origin_of,
  stage_found, stage_replica,
}
use ipfs_node.Replica.Diagram.{
  Copy, durable, prepared, copy_of, copy_of-staged, Stages, first, join, again, adopt, stable_move,
  staged_move,
}
use ipfs_node.Replica.Moves.{Moves, moved, after_get}
use ipfs_node.Replica.Outcome.{
  copy_at, Among-SameRecords, save-copy, restore_stage_write-copy, pin_and_save-copy,
}

module _ (h : Host) (v : HostView h) (laws : HostLaws h v) where
  module _ (o : ReplicaStageTarget) where
    -- The moves of this transaction.
    abbrev Move : Copy → Copy → Type 0
    Move = Stages o.transaction_id

    join-Move :
        (r : FileRecord) (s : ReplicaStage)
        → r.replica_stage ≡ some s
        → Move (copy_of (some r)) (copy_of (some (joined_record o r s)))
    unfolding joined_record joined_stage
    join-Move r s e =
        subst (λ c. Move c (copy_of (some (joined_record o r s)))) (sym (copy_of-staged r s e))
          (elim (Bool-cases (contains o.transaction_id s.transaction_ids)) [
            | inl t ↦ rw t (again t)
            | inr t ↦ rw t (join t)
          ])

    join_stage-Moves :
        (r : FileRecord) (s : ReplicaStage) (w : h.World)
        → r.cid ≡ o.cid
        → r.replica_stage ≡ some s
        → copy_at h v w o.cid ≡ copy_of (some r)
        → Moves h v o.cid Move (copy_of (some r)) (join_stage h o r s w)
    unfolding join_stage joined_record
    join_stage-Moves r s w own e now =
        let c = copy_of (some r) in
        let d = copy_of (some (joined_record o r s)) in
        if-Post
          (not (contains o.transaction_id s.transaction_ids)
            || is_stage_owner (origin_of s.origins o.transaction_id) o.origin_peer_id)
          (λ t. moved h v Move o.cid c d (join-Move r s e) (
            and_then-Post _ (pin_file-Post h v laws false o.cid w)
              (λ created pinned p.
                or_else-Post _
                  (and_then-Post _
                    (save-copy h v laws o.cid c d (joined_record o r s) pinned own refl
                      (Among-SameRecords h v laws o.cid c d w pinned p.1 (inl now)))
                    (λ x after q. on_ok q) (λ x after q. q))
                  (λ a after q. q)
                  (λ x after q.
                    restore_stage_write-copy h v laws _ o.cid c d (some r) false x after
                      (λ y same. cc (own, same)) refl q))
              (λ x after p. Among-SameRecords h v laws o.cid c d w after p (inl now))))
          (λ t. on_threw (inr now))

    staged_target :
        (previous : Option FileRecord) (s : Stats)
        → copy_of (some (staged_record o previous s))
          ≡ prepared (is_some previous) (o.transaction_id ∷ [])
    unfolding staged_record new_stage
    staged_target none s = refl
    staged_target (some r) s = refl

    -- What begins from a file that nobody has prepared.
    begin_stage-Moves :
        (previous : Option FileRecord) (w : h.World)
        → ((r : FileRecord) → previous ≡ some r → r.cid ≡ o.cid)
        → copy_at h v w o.cid ≡ copy_of previous
        → (belongs_to_upload previous ≡ false → Move (copy_of previous) durable)
        → (belongs_to_upload previous ≡ false
            → was_confirmed previous ≡ false
            → Move (copy_of previous) (prepared (is_some previous) (o.transaction_id ∷ [])))
        → Moves h v o.cid Move (copy_of previous) (begin_stage h o previous w)
    unfolding begin_stage stable_record staged_record
    begin_stage-Moves previous w own now stable staged =
        let c = copy_of previous in
        if-Post (belongs_to_upload previous) (λ t. on_threw (inr now))
          (λ free.
            and_then-Post _ (is_directly_pinned-Post h v laws o.cid w)
              (λ pinned known q.
                let before = ap copy_of ((reads_alike h v laws w known q.1).records o.cid) ∙ now in
                if-Post (pinned || was_confirmed previous)
                  (λ t. moved h v Move o.cid c durable (stable free) (
                    pin_and_save-copy h v laws o.cid c durable previous (stable_record o previous)
                      false known own refl (λ s. refl) (λ s. refl) (inl before)))
                  (λ t. moved h v Move o.cid c _ (staged free (ground (arith, t))) (
                    pin_and_save-copy h v laws o.cid c _ previous (staged_record o previous) true
                      known own refl (λ s. refl) (staged_target previous) (inl before))))
              (λ x known q.
                inr (ap copy_of ((reads_alike h v laws w known q).records o.cid) ∙ now)))

    stage_found-Moves :
        (found : Option FileRecord) (w : h.World)
        → ((r : FileRecord) → found ≡ some r → r.cid ≡ o.cid)
        → copy_at h v w o.cid ≡ copy_of found
        → Moves h v o.cid Move (copy_of found) (stage_found h o found w)
    unfolding stage_found
    stage_found-Moves none w own now = begin_stage-Moves none w own now (λ b. adopt) (λ b c. first)
    stage_found-Moves (some r) w own now = go r.replica_stage refl
      where
        go :
            (s : Option ReplicaStage)
            → r.replica_stage ≡ s
            → Moves h v {A = ReplicaStageResult} o.cid Move (copy_of (some r)) (elim s [
              | none ↦ begin_stage h o (some r) w
              | some stage ↦ join_stage h o r stage w
            ])
        go none e =
            begin_stage-Moves (some r) w own now (stable_move o.transaction_id r e)
              (staged_move o.transaction_id r e)
        go (some s) e = join_stage-Moves r s w (own r refl) e now

    -- A stage that returns has made one of the moves that a stage may make; one that throws has made
    -- that move or none, whichever call failed.
    pub stage_replica-Stages :
        (ts : Tombstones) (w : h.World)
        → Moves h v o.cid Move (copy_at h v w o.cid) (stage_replica h o ts w).1
    unfolding stage_replica
    stage_replica-Stages ts w =
        answer (was_aborted o.cid o.transaction_id o.origin_peer_id o.now ts)
      where
        answer :
            (p : Tombstones × Bool)
            → Moves h v o.cid Move (copy_at h v w o.cid) (
                let run : Tombstones × (h.World × Result ReplicaStageResult) =
                  if p.1
                  then (p.0, (w, threw (failure (text "Replica transaction was already aborted"))))
                  else (p.0, and_then (get h o.cid w) (stage_found h o)) in
                run.1)
        answer (kept, true) = on_threw (inr refl)
        answer (kept, false) =
            after_get h v laws Move o.cid (stage_found h o) w
              (λ found known q. stage_found-Moves found known (λ r e. (q.0 r e).1) q.1)
