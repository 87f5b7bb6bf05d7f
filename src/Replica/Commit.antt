-- ===== src/Replica/Commit.antt =====
-- About `commitReplica` (src/storage/replicaStage.ts) as a move of a copy.
use ipfs_node.Base.{
  true, ◌≡◌, refl, sym, subst, ◌∙◌, inl, inr, Option, none, some, arith, if◌then◌else◌,
}
use ipfs_node.Registry.{
  FileRecord, FileState, temporary, confirmed, expired, ReplicaStage, contains, is_temporary,
  is_confirmed, is_file_record,
}
use ipfs_node.Registry.Staged.{staged_is_temporary}
use ipfs_node.Host.{Host}
use ipfs_node.Host.Laws.{on_ok, on_threw, HostView, HostLaws}
use ipfs_node.Lifecycle.Steps.{and_then-Post, if-Post}
use ipfs_node.Replica.{is_stage_owner, origin_of}
use ipfs_node.Replica.Settling.{
  SettleReplicaOptions, committed_record, is_settled_copy, commit_staged, commit_other,
  commit_found, commit_replica,
}
use ipfs_node.Replica.Diagram.{
  Copy, durable, copy_of, copy_of-staged, copy_of-plain, copy_in, Commits, settle, settled,
}
use ipfs_node.Replica.Outcome.{copy_at, save-copy}
use ipfs_node.Replica.Moves.{Moves, moved, IsFound, after_get}

-- A committed copy has no stage.
settled_copy :
    (r : FileRecord)
    → is_file_record r ≡ true
    → is_settled_copy r ≡ true
    → copy_of (some r) ≡ durable
unfolding is_settled_copy
settled_copy r valid e = go r.replica_stage refl
  where
    is_durable : is_settled_copy r ≡ true → is_confirmed r.state ≡ true
    is_durable h = ground (arith, h)

    durable_state : (s : FileState) → is_confirmed s ≡ true → copy_in s ≡ durable
    durable_state temporary h = cc
    durable_state confirmed h = refl
    durable_state expired h = cc

    impossible : (s : FileState) → is_confirmed s ≡ true → is_temporary s ≡ true → ⊥
    impossible temporary h k = cc
    impossible confirmed h k = cc
    impossible expired h k = cc

    go : (s : Option ReplicaStage) → r.replica_stage ≡ s → copy_of (some r) ≡ durable
    go none n = copy_of-plain r n ∙ durable_state r.state (is_durable e)
    go (some s) n = absurd (impossible r.state (is_durable e) (staged_is_temporary r s valid n).0)

module _ (h : Host) (v : HostView h) (laws : HostLaws h v) (o : SettleReplicaOptions) where
  abbrev Commit : Copy → Copy → Type 0
  Commit = Commits o.transaction_id

  commit_other-Moves :
      (found : Option FileRecord) (w : h.World)
      → IsFound h v o.cid found w
      → Moves h v o.cid Commit (copy_of found) (commit_other h found w)
  unfolding commit_other
  commit_other-Moves none w found = on_threw (inr found.1)
  commit_other-Moves (some r) w found =
      if-Post (is_settled_copy r)
        (λ t.
          let is_durable = settled_copy r (found.0 r refl).0 t in
          on_ok (
            subst (λ c. Commit c (copy_at h v w o.cid)) (sym is_durable)
              (subst (Commit durable) (sym (found.1 ∙ is_durable)) settled)))
        (λ t. on_threw (inr found.1))

  commit_staged-Moves :
      (r : FileRecord) (s : ReplicaStage) (w : h.World)
      → r.cid ≡ o.cid
      → r.replica_stage ≡ some s
      → contains o.transaction_id s.transaction_ids ≡ true
      → copy_at h v w o.cid ≡ copy_of (some r)
      → Moves h v o.cid Commit (copy_of (some r)) (commit_staged h o r s w)
  unfolding commit_staged committed_record
  commit_staged-Moves r s w own e member now =
      if-Post (is_stage_owner (origin_of s.origins o.transaction_id) o.peer_id)
        (λ t.
          moved h v Commit o.cid (copy_of (some r)) durable
            (subst (λ c. Commit c durable) (sym (copy_of-staged r s e)) (settle member))
            (and_then-Post _
              (save-copy h v laws o.cid (copy_of (some r)) durable (committed_record r o.now) w own
                refl (inl now))
              (λ x after q. on_ok q) (λ x after q. q)))
        (λ t. on_threw (inr now))

  commit_found-Moves :
      (found : Option FileRecord) (w : h.World)
      → IsFound h v o.cid found w
      → Moves h v o.cid Commit (copy_of found) (commit_found h o found w)
  unfolding commit_found
  commit_found-Moves none w found = commit_other-Moves none w found
  commit_found-Moves (some r) w found = go r.replica_stage refl
    where
      go :
          (s : Option ReplicaStage)
          → r.replica_stage ≡ s
          → Moves h v {A = Option FileRecord} o.cid Commit (copy_of (some r)) (elim s [
            | none ↦ commit_other h (some r) w
            | some stage ↦
                if contains o.transaction_id stage.transaction_ids
                then commit_staged h o r stage w
                else commit_other h (some r) w
          ])
      go none e = commit_other-Moves (some r) w found
      go (some s) e =
          if-Post (contains o.transaction_id s.transaction_ids)
            (λ t. commit_staged-Moves r s w (found.0 r refl).1 e t found.1)
            (λ t. commit_other-Moves (some r) w found)

  -- A commit that returns has made a prepared copy durable, or has found it durable; one that throws
  -- has done so or has left the copy as it was.
  pub commit_replica-Commits :
      (w : h.World) → Moves h v o.cid Commit (copy_at h v w o.cid) (commit_replica h o w)
  unfolding commit_replica
  commit_replica-Commits w = after_get h v laws Commit o.cid (commit_found h o) w commit_found-Moves
