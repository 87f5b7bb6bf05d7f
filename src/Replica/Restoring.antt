-- ===== src/Replica/Restoring.antt =====
-- About `restoreReplicaStage` (src/storage/replicaStage.ts): the copy is the prepared one or its
-- baseline, whatever fails.
use ipfs_node.Base.Texts.{Text}
use ipfs_node.Base.{
  Bool, true, false, ◌≡◌, refl, sym, subst, inl, Option, none, some, is_some, if◌then◌else◌,
}
use ipfs_node.Registry.{FileRecord, ReplicaStageBaseline}
use ipfs_node.Host.{Host, Error, Result, Done, ok, threw, aggregate, aggregate_one}
use ipfs_node.Host.Laws.{Post, on_ok, on_threw, HostView, HostLaws}
use ipfs_node.FileRegistry.{remove_record}
use ipfs_node.Lifecycle.{pin_file}
use ipfs_node.Lifecycle.Steps.{
  and_then-Post, or_else-Post, weaken-Post, pin_file-Post, unpin_file-Post,
}
use ipfs_node.Replica.Settling.{
  baseline_of, restage, restage_and_throw, write_baseline, restore_replica_stage,
}
use ipfs_node.Replica.Diagram.{Copy, absent, released, copy_of, baseline}
use ipfs_node.Replica.Outcome.{copy_at, Among, Among-SameRecords, save-copy, remove-copy, swap}

module _ (h : Host) (v : HostView h) (laws : HostLaws h v) (k : Text) where
  restage-copy :
      (c d : Copy) (removed : Bool) (r : FileRecord) (w : h.World)
      → r.cid ≡ k
      → copy_of (some r) ≡ c
      → Among h v k c d w
      → Post
          (λ u after. Among h v k c d after)
          (λ e after. Among h v k c d after)
          (restage h removed r w)
  unfolding restage
  restage-copy c d removed r w own e among =
      and_then-Post _ (repinned removed)
        (λ b pinned q.
          and_then-Post _ (save-copy h v laws k d c r pinned own e (swap h v laws k c d pinned q))
            (λ s after p. on_ok (inl p)) (λ x after p. swap h v laws k d c after p))
        (λ x pinned q. q)
    where
      repinned :
          (b : Bool)
          → Post
              (λ u after. Among h v k c d after)
              (λ x after. Among h v k c d after)
              (if b then pin_file h false r.cid w else (w, ok false))
      repinned true =
          weaken-Post (pin_file-Post h v laws false r.cid w)
            (λ b after q. Among-SameRecords h v laws k c d w after q.1 among)
            (λ x after q. Among-SameRecords h v laws k c d w after q among)
      repinned false = on_ok among

  restage_and_throw-copy {ℓ} :
      {A : Type ℓ} (Q : A → h.World → Type 0) (c d : Copy) (removed : Bool) (r : FileRecord)
      (original : Error) (w : h.World)
      → r.cid ≡ k
      → copy_of (some r) ≡ c
      → Among h v k c d w
      → Post Q (λ e after. Among h v k c d after) (restage_and_throw h removed r original w)
  unfolding restage_and_throw
  restage_and_throw-copy {A = A} Q c d removed r original w own e among =
      go (restage h removed r w) (restage-copy c d removed r w own e among)
    where
      go :
          (m : h.World × Result Done)
          → Post (λ u after. Among h v k c d after) (λ x after. Among h v k c d after) m
          → Post Q
              (λ x after. Among h v k c d after)
              (let (after, result) = m in
                let answer : h.World × Result A = elim result [
                  | ok u ↦ (after, threw (aggregate original))
                  | threw x ↦ (after, threw (aggregate_one original x))
                ] in
                answer)
      go _ (on_ok q) = on_threw q
      go _ (on_threw q) = on_threw q

  write_baseline-copy :
      (c : Copy) (removed : Bool) (r : FileRecord) (b : Option ReplicaStageBaseline) (w : h.World)
      → r.cid ≡ k
      → copy_of (some r) ≡ c
      → Among h v k c (baseline (is_some b)) w
      → Post
          (λ a after. copy_at h v after k ≡ baseline (is_some b))
          (λ e after. Among h v k c (baseline (is_some b)) after)
          (write_baseline h removed r b false w)
  unfolding write_baseline baseline_of
  write_baseline-copy c removed r none w own e among =
      or_else-Post (restage_and_throw h removed r)
        (and_then-Post _
          (subst
            (λ j.
              Post (λ u after. copy_at h v after k ≡ absent) (λ x after. Among h v k c absent after)
                (remove_record h j w))
            (sym own) (remove-copy h v laws k c absent w refl among))
          (λ u after q. on_ok q) (λ x after q. q))
        (λ a after q. q) (λ x after q. restage_and_throw-copy _ c absent removed r x after own e q)
  write_baseline-copy c removed r (some b) w own e among =
      and_then-Post _ (save-copy h v laws k c released (baseline_of r (some b)) w own refl among)
        (λ s after q. on_ok q) (λ x after q. q)

  pub restore_replica_stage-copy :
      (c : Copy) (r : FileRecord) (b : Option ReplicaStageBaseline) (w : h.World)
      → r.cid ≡ k
      → copy_of (some r) ≡ c
      → Among h v k c (baseline (is_some b)) w
      → Post
          (λ a after. copy_at h v after k ≡ baseline (is_some b))
          (λ e after. Among h v k c (baseline (is_some b)) after)
          (restore_replica_stage h r b false w)
  unfolding restore_replica_stage
  restore_replica_stage-copy c r b w own e among =
      and_then-Post _ (unpin_file-Post h v laws r.cid w)
        (λ removed unpinned q.
          write_baseline-copy c removed r b unpinned own e
            (Among-SameRecords h v laws k c (baseline (is_some b)) w unpinned q.1 among))
        (λ x unpinned q. Among-SameRecords h v laws k c (baseline (is_some b)) w unpinned q among)
