-- ===== src/Replica/Abort.antt =====
-- About `abortReplica` (src/storage/replicaStage.ts) as a move of a copy.
use ipfs_node.Base.Texts.{Text, text}
use ipfs_node.Base.{
  Bool, true, false, ◌≡◌, refl, sym, ap, subst, ◌∙◌, inl, inr, Option, none, some, List, [], ◌∷◌,
  is_some, if◌then◌else◌,
}
use ipfs_node.Registry.{
  FileRecord, FileState, temporary, confirmed, expired, ReplicaStage, contains, set_delete,
}
use ipfs_node.Host.{Host, failure, Result, ok, threw, and_then}
use ipfs_node.Host.Laws.{Post, on_ok, on_threw, HostView, HostLaws, Same}
use ipfs_node.FileRegistry.{get, save}
use ipfs_node.Lifecycle.Steps.{and_then-Post, record_at, record_at-cid, get-Post, reads_alike}
use ipfs_node.Tombstones.{Tombstones}
use ipfs_node.Replica.{is_stage_owner, origin_of}
use ipfs_node.Replica.Settling.{
  SettleReplicaOptions, left_record, restore_replica_stage, abort_staged, abort_found,
  abort_replica, marked_with,
}
use ipfs_node.Replica.Diagram.{
  Copy, absent, prepared, copy_of, copy_of-staged, copy_of-plain, copy_in, baseline, is_member,
  Aborts, leave, last, miss,
}
use ipfs_node.Replica.Outcome.{copy_at, save-copy}
use ipfs_node.Replica.Restoring.{restore_replica_stage-copy}
use ipfs_node.Replica.Moves.{Moves, moved}

left_copy :
    (t : Text) (r : FileRecord) (s : ReplicaStage)
    → copy_of (some (left_record t r s))
      ≡ prepared (is_some s.previous) (set_delete t s.transaction_ids)
unfolding left_record
left_copy t r s = refl

module _ (h : Host) (v : HostView h) (laws : HostLaws h v) (o : SettleReplicaOptions) where
  abbrev Abort : Copy → Copy → Type 0
  Abort = Aborts o.transaction_id

  abort_staged-Moves :
      (r : FileRecord) (s : ReplicaStage) (w : h.World)
      → r.cid ≡ o.cid
      → r.replica_stage ≡ some s
      → contains o.transaction_id s.transaction_ids ≡ true
      → copy_at h v w o.cid ≡ copy_of (some r)
      → Moves h v o.cid Abort (copy_of (some r)) (abort_staged h o r s w)
  unfolding abort_staged left_record
  abort_staged-Moves r s w own e member now =
      go (set_delete o.transaction_id s.transaction_ids) refl
    where
      from_stage :
          (d : Copy)
          → Abort (prepared (is_some s.previous) s.transaction_ids) d
          → Abort (copy_of (some r)) d
      from_stage d = subst (λ c. Abort c d) (sym (copy_of-staged r s e))

      go :
          (rest : List Text)
          → set_delete o.transaction_id s.transaction_ids ≡ rest
          → Moves h v {A = Option FileRecord} o.cid Abort (copy_of (some r)) (elim rest [
            | [] ↦ restore_replica_stage h r s.previous false w
            | id ∷ ids ↦
                and_then
                  (save h (left_record o.transaction_id r s) w)
                  (λ x after. (after, ok (some x)))
          ])
      go [] n =
          moved h v Abort o.cid (copy_of (some r)) (baseline (is_some s.previous))
            (from_stage _ (last member n))
            (restore_replica_stage-copy h v laws o.cid (copy_of (some r)) r s.previous w own refl
              (inl now))
      go (id ∷ ids) n =
          moved h v Abort o.cid (copy_of (some r)) _ (from_stage _ (leave member (λ m. cc (m, n))))
            (and_then-Post _
              (save-copy h v laws o.cid (copy_of (some r)) _ (left_record o.transaction_id r s) w
                own (left_copy o.transaction_id r s) (inl now))
              (λ x after q. on_ok q) (λ x after q. q))

  abort_found-Moves :
      (found : Option FileRecord) (ts : Tombstones) (w : h.World)
      → ((r : FileRecord) → found ≡ some r → r.cid ≡ o.cid)
      → copy_at h v w o.cid ≡ copy_of found
      → Moves h v o.cid Abort (copy_of found) (abort_found h o found ts w).1
  unfolding abort_found
  abort_found-Moves none ts w own now = on_ok (subst (Abort absent) (sym now) (miss refl))
  abort_found-Moves (some r) ts w own now = go r.replica_stage refl
    where
      stays :
          is_member o.transaction_id (copy_of (some r)) ≡ false
          → Moves h v o.cid Abort (copy_of (some r)) (w, ok (some r))
      stays m = on_ok (subst (Abort (copy_of (some r))) (sym now) (miss m))

      unowned : (s : FileState) → is_member o.transaction_id (copy_in s) ≡ false
      unowned temporary = refl
      unowned confirmed = refl
      unowned expired = refl

      found :
          (s : ReplicaStage) (member owner : Bool)
          → r.replica_stage ≡ some s
          → contains o.transaction_id s.transaction_ids ≡ member
          → Moves h v o.cid Abort (copy_of (some r)) (
              let run : Tombstones × (h.World × Result (Option FileRecord)) =
                if member
                then if owner then (marked_with h o ts, abort_staged h o r s w) else (
                  ts,
                  (w, threw (failure (text "Replica transaction was staged by another peer"))),
                )
                else (marked_with h o ts, (w, ok (some r))) in
              run.1)
      found s true true e m = abort_staged-Moves r s w (own r refl) e m now
      found s true false e m = on_threw (inr now)
      found s false owner e m = stays (ap (is_member o.transaction_id) (copy_of-staged r s e) ∙ m)

      go :
          (s : Option ReplicaStage)
          → r.replica_stage ≡ s
          → Moves h v o.cid Abort (copy_of (some r)) (
              let run : Tombstones × (h.World × Result (Option FileRecord)) = elim s [
                | none ↦ (marked_with h o ts, (w, ok (some r)))
                | some stage ↦
                    if contains o.transaction_id stage.transaction_ids
                    then if is_stage_owner (origin_of stage.origins o.transaction_id) o.peer_id
                      then (marked_with h o ts, abort_staged h o r stage w)
                      else (
                        ts,
                        (
                          w,
                          threw (failure (text "Replica transaction was staged by another peer")),
                        ),
                      )
                    else (marked_with h o ts, (w, ok (some r)))
              ] in
              run.1)
      go none e = stays (ap (is_member o.transaction_id) (copy_of-plain r e) ∙ unowned r.state)
      go (some s) e =
          found s (contains o.transaction_id s.transaction_ids)
            (is_stage_owner (origin_of s.origins o.transaction_id) o.peer_id) e refl

  -- An abort that returns has made one of the moves that an abort may make; one that throws has made
  -- that move or none, whichever call failed.
  pub abort_replica-Aborts :
      (ts : Tombstones) (w : h.World)
      → Moves h v o.cid Abort (copy_at h v w o.cid) (abort_replica h o ts w).1
  unfolding abort_replica
  abort_replica-Aborts ts w = go (get h o.cid w) (get-Post h v laws o.cid w)
    where
      go :
          (m : h.World × Result (Option FileRecord))
          → Post
              (λ found known. (found ≡ record_at h v w o.cid) × Same h v w known)
              (λ e known. Same h v w known)
              m
          → Moves h v o.cid Abort (copy_at h v w o.cid) (
              let run : Tombstones × (h.World × Result (Option FileRecord)) =
                let (known, found) = m in
                elim found [
                  | threw e ↦ (ts, (known, threw e))
                  | ok current ↦ abort_found h o current ts known
                ] in
              run.1)
      go (known, ok found) (on_ok q) =
          subst (λ c. Moves h v o.cid Abort c (abort_found h o found ts known).1) (ap copy_of q.0)
            (abort_found-Moves found ts known (λ r e. record_at-cid h v w o.cid r (sym q.0 ∙ e))
              (ap copy_of ((reads_alike h v laws w known q.1).records o.cid ∙ sym q.0)))
      go (known, threw e) (on_threw s) =
          on_threw (inr (ap copy_of ((reads_alike h v laws w known s).records o.cid)))
