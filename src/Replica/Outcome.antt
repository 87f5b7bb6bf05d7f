-- ===== src/Replica/Outcome.antt =====
-- About what the registry calls of src/storage/replicaStage.ts do to a copy, failures included.
use mathlib.Core.Option
use ipfs_node.Base.Texts.{Text}
use ipfs_node.Base.{
  Bool, true, false, ◌≡◌, refl, sym, ap, subst, ◌∙◌, ◌⊎◌, inl, inr, Option, none, some,
}
use ipfs_node.Registry.{FileRecord}
use ipfs_node.Host.{Host, Error, Result, done, ok, Stats}
use ipfs_node.Host.Laws.{Post, on_ok, on_threw, HostView, HostLaws}
use ipfs_node.FileRegistry.{save, remove_record}
use ipfs_node.Lifecycle.{restore_record}
use ipfs_node.Lifecycle.Steps.{
  and_then-Post, or_else-Post, weaken-Post, content, record_at, save-outcome, remove_record-outcome,
  SameRecords, reads_alike, pin_file-Post, unpin_file-Post,
}
use ipfs_node.Replica.{unpin_created, restore_stage_write, measure_and_save, pin_and_save}
use ipfs_node.Replica.Diagram.{Copy, absent, copy_of}

copy_of-content : (o : Option FileRecord) → copy_of o ≡ copy_of (Option.map content o)
copy_of-content none = refl
copy_of-content (some r) = refl

module _ (h : Host) (v : HostView h) where
  abbrev pub copy_at : h.World → Text → Copy
  copy_at w k = copy_of (record_at h v w k)

  -- The copy is one of two.
  abbrev pub Among : Text → Copy → Copy → h.World → Type 0
  Among k c d after = (copy_at after k ≡ c) ⊎ (copy_at after k ≡ d)

  read_as :
      (after : h.World) (k : Text) (o : Option FileRecord)
      → Option.map content (record_at h v after k) ≡ Option.map content o
      → copy_at after k ≡ copy_of o
  read_as after k o e = copy_of-content _ ∙ ap copy_of e ∙ sym (copy_of-content o)

  module _ (laws : HostLaws h v) where
    -- A copy that is as before is still one of two.
    Among-same_copy :
        (k : Text) (c d : Copy) (w after : h.World)
        → copy_at after k ≡ copy_at w k
        → Among k c d w
        → Among k c d after
    Among-same_copy k c d w after n (inl m) = inl (n ∙ m)
    Among-same_copy k c d w after n (inr m) = inr (n ∙ m)

    pub Among-SameRecords :
        (k : Text) (c d : Copy) (w after : h.World)
        → SameRecords h v laws w after
        → Among k c d w
        → Among k c d after
    Among-SameRecords k c d w after s = Among-same_copy k c d w after (ap copy_of (s.records k))

    written_as :
        (k : Text) (r : FileRecord) (after : h.World)
        → r.cid ≡ k
        → Option.map content (record_at h v after r.cid) ≡ some (content r)
        → copy_at after k ≡ copy_of (some r)
    written_as k r after own e =
        read_as after k (some r)
          (subst (λ j. Option.map content (record_at h v after j) ≡ some (content r)) own e)

    pub save-copy :
        (k : Text) (c d : Copy) (r : FileRecord) (w : h.World)
        → r.cid ≡ k
        → copy_of (some r) ≡ d
        → Among k c d w
        → Post (λ s after. copy_at after k ≡ d) (λ e after. Among k c d after) (save h r w)
    save-copy k c d r w own e among =
        weaken-Post (save-outcome h v laws r w)
          (λ s after q.
            written_as k r after own
              (ap (Option.map content) q.0 ∙ ap (λ (x : FileRecord). some x) q.1)
            ∙ e)
          (λ x after q. elim q.0 [
            | inl n ↦ inr (written_as k r after own n ∙ e)
            | inr n ↦
                Among-same_copy k c d w after
                  (ap copy_of (subst (λ j. record_at h v after j ≡ record_at h v w j) own n)) among
          ])

    pub remove-copy :
        (k : Text) (c d : Copy) (w : h.World)
        → absent ≡ d
        → Among k c d w
        → Post (λ u after. copy_at after k ≡ d) (λ e after. Among k c d after) (remove_record h k w)
    remove-copy k c d w e among =
        weaken-Post (remove_record-outcome h v laws k w) (λ u after q. ap copy_of q.0 ∙ e)
          (λ x after q. elim q.0 [
            | inl n ↦ inr (ap copy_of n ∙ e)
            | inr n ↦ Among-same_copy k c d w after (ap copy_of n) among
          ])

    pub swap : (k : Text) (c d : Copy) (w : h.World) → Among k c d w → Among k d c w
    swap k c d w (inl e) = inr e
    swap k c d w (inr e) = inl e

    restore_record-copy :
        (k : Text) (c d : Copy) (previous : Option FileRecord) (w : h.World)
        → ((r : FileRecord) → previous ≡ some r → r.cid ≡ k)
        → copy_of previous ≡ c
        → Among k c d w
        → Post
            (λ u after. Among k c d after)
            (λ e after. Among k c d after)
            (restore_record h k previous w)
    unfolding restore_record
    restore_record-copy k c d none w own e among =
        weaken-Post (remove-copy k d c w e (swap k c d w among)) (λ u after q. inl q)
          (λ x after q. swap k d c after q)
    restore_record-copy k c d (some r) w own e among =
        and_then-Post (λ s after. (after, ok done))
          (save-copy k d c r w (own r refl) e (swap k c d w among)) (λ s after q. on_ok (inl q))
          (λ x after q. swap k d c after q)

    unpin_created-copy :
        (k : Text) (c d : Copy) (created : Bool) (w : h.World)
        → Among k c d w
        → Post
            (λ b after. Among k c d after)
            (λ e after. Among k c d after)
            (unpin_created h created k w)
    unfolding unpin_created
    unpin_created-copy k c d true w among =
        weaken-Post (unpin_file-Post h v laws k w)
          (λ b after q. Among-SameRecords k c d w after q.1 among)
          (λ e after q. Among-SameRecords k c d w after q among)
    unpin_created-copy k c d false w among = on_ok among

    -- What holds however a call ends holds of the world it leaves.
    either_way {ℓ} :
        {A : Type ℓ} {P : h.World → Type 0} {m : h.World × Result A}
        → Post (λ a after. P after) (λ e after. P after) m
        → P m.0
    either_way (on_ok q) = q
    either_way (on_threw q) = q

    pub restore_stage_write-copy {ℓ} :
        {A : Type ℓ} (Q : A → h.World → Type 0) (k : Text) (c d : Copy)
        (previous : Option FileRecord) (created : Bool) (original : Error) (w : h.World)
        → ((r : FileRecord) → previous ≡ some r → r.cid ≡ k)
        → copy_of previous ≡ c
        → Among k c d w
        → Post Q
            (λ e after. Among k c d after)
            (restore_stage_write h k previous created original w)
    unfolding restore_stage_write
    restore_stage_write-copy Q k c d previous created original w own e among = on_threw (
        either_way (
          restore_record-copy k c d previous (unpin_created h created k w).0 own e
            (either_way (unpin_created-copy k c d created w among))))

    pub pin_and_save-copy :
        (k : Text) (c d : Copy) (previous : Option FileRecord) (describe : Stats → FileRecord)
        (staged : Bool) (w : h.World)
        → ((r : FileRecord) → previous ≡ some r → r.cid ≡ k)
        → copy_of previous ≡ c
        → ((s : Stats) → (describe s).cid ≡ k)
        → ((s : Stats) → copy_of (some (describe s)) ≡ d)
        → Among k c d w
        → Post
            (λ a after. copy_at after k ≡ d)
            (λ e after. Among k c d after)
            (pin_and_save h k previous describe staged w)
    unfolding pin_and_save measure_and_save
    pin_and_save-copy k c d previous describe staged w own e mine target among =
        and_then-Post _ (pin_file-Post h v laws false k w)
          (λ created pinned p.
            or_else-Post (restore_stage_write h k previous created)
              (and_then-Post _
                (and_then-Post _ (laws.stat_lem k pinned)
                  (λ stats measured s.
                    save-copy k c d (describe stats) measured (mine stats) (target stats) (
                      Among-SameRecords k c d pinned measured
                        (reads_alike h v laws pinned measured s)
                        (Among-SameRecords k c d w pinned p.1 among)))
                  (λ x measured s.
                    Among-SameRecords k c d pinned measured (reads_alike h v laws pinned measured s)
                      (Among-SameRecords k c d w pinned p.1 among)))
                (λ r after q. on_ok q) (λ x after q. q))
              (λ a after q. q)
              (λ x after q. restore_stage_write-copy _ k c d previous created x after own e q))
          (λ x after p. Among-SameRecords k c d w after p among)
