-- ===== src/Replica/Protection.antt =====
-- About the pin and the record that `stageReplica` (src/storage/replicaStage.ts) leaves behind.
use mathlib.Core.Option
use ipfs_node.Base.Texts.{Text, text}
use ipfs_node.Base.{
  Bool, true, false, ◌≡◌, refl, sym, ap, subst, ◌∙◌, inl, inr, ◌||◌, not, Option, none, some,
  if◌then◌else◌, Bool-cases,
}
use ipfs_node.Registry.{FileRecord, ReplicaStage, contains}
use ipfs_node.Host.{Host, Error, failure, Result, ok, threw, Stats, and_then, or_else}
use ipfs_node.Host.Laws.{Post, on_ok, on_threw, HostView, HostLaws, Same}
use ipfs_node.FileRegistry.{get, save}
use ipfs_node.Tombstones.{Tombstones, was_aborted}
use ipfs_node.Lifecycle.{pin_file, error_of, claims_pin}
use ipfs_node.Lifecycle.Steps.{
  and_then-Post, or_else-Post, weaken-Post, if-Post, content, record_at, record_at-cid, get-Post,
  save-Post, SameRecords, Same-trans, reads_alike, pin_file-created, unpin_file-Post,
  is_directly_pinned-Post,
}
use ipfs_node.Lifecycle.Rollback.{Protected, Undone, after_second, restore_record-Post}
use ipfs_node.Lifecycle.Release.{untouched}
use ipfs_node.Replica.{
  ReplicaStageTarget, ReplicaStageResult, joined_record, stable_record, staged_record,
  belongs_to_upload, was_confirmed, is_stage_owner, origin_of, unpin_created, restore_stage_write,
  measure_and_save, pin_and_save, join_stage, begin_stage, stage_found, stage_replica,
}

module _ (h : Host) (v : HostView h) (laws : HostLaws h v) where
  -- What a stage that returns leaves behind.
  abbrev pub Held : Text → ReplicaStageResult → h.World → Type 0
  Held k a after =
      (record_at h v after k ≡ some a.stored) × (a.stored.pinned ≡ true) × (v.pin_at after k ≡ true)

  -- What is known once the pin call has answered: whether the pin is new, and that it is there.
  abbrev PinKnown : Text → Option FileRecord → Bool → h.World → Type 0
  PinKnown k previous created w =
      (created ≡ true → claims_pin previous ≡ false) × (v.pin_at w k ≡ true)

  unpin_created-Post :
      (k : Text) (previous : Option FileRecord) (created : Bool) (w : h.World)
      → PinKnown k previous created w
      → Post
          (λ b after. claims_pin previous ≡ true → v.pin_at after k ≡ true)
          (λ e after. Unit)
          (unpin_created h created k w)
  unfolding unpin_created
  unpin_created-Post k previous true w known =
      weaken-Post (unpin_file-Post h v laws k w) (λ b after q. λ c. cc (c, known.0 refl))
        (λ e after q. tt)
  unpin_created-Post k previous false w known = on_ok (λ c. known.1)

  none_failed {ℓ κ} :
      {A : Type ℓ} {P : h.World → Type κ} {m : h.World × Result A}
      → Post (λ a after. P after) (λ e after. Unit) m
      → error_of m.1 ≡ none
      → P m.0
  unfolding error_of
  none_failed (on_ok q) e = q
  none_failed (on_threw q) e = cc

  restore_stage_write-Post {ℓ} :
      {A : Type ℓ} (Q : A → h.World → Type 0) (k : Text) (w mid : h.World)
      (previous : Option FileRecord) (created : Bool) (original : Error)
      → previous ≡ record_at h v w k
      → PinKnown k previous created mid
      → Post Q (Undone h v k w) (restore_stage_write h k previous created original mid)
  unfolding restore_stage_write
  restore_stage_write-Post Q k w mid previous created original same known = on_threw (
      after_second h v laws k w (unpin_created h created k mid).0 original previous same _
        (none_failed (unpin_created-Post k previous created mid known))
        (restore_record-Post h v laws k previous _ (λ r e. record_at-cid h v w k r (sym same ∙ e))))

  -- A pin that a call created was not there, so no record claimed it.
  new_pin :
      (k : Text) (w known : h.World) (previous : Option FileRecord) (created : Bool)
      → Protected h v k w
      → Same h v w known
      → previous ≡ record_at h v w k
      → (created ≡ true → v.pin_at known k ≡ false)
      → created ≡ true
      → claims_pin previous ≡ false
  new_pin k w known previous created safe s same absent c =
      elim (Bool-cases (claims_pin previous)) [
        | inl e ↦
            absurd (wrong (safe (sym (ap claims_pin same) ∙ e)) (sym (s.same_pin k) ∙ absent c))
        | inr e ↦ e
      ]
    where
      wrong : v.pin_at w k ≡ true → v.pin_at w k ≡ false → ⊥
      wrong x y = cc

  -- A pin call that failed has left the record and its protection.
  pin_failed :
      (k : Text) (w known after : h.World) (e : Error)
      → Protected h v k w
      → Same h v w known
      → (v.pin_at known k ≡ true → v.pin_at after k ≡ true) × SameRecords h v laws known after
      → Undone h v k w e after
  pin_failed k w known after e safe s q =
      let same = q.1.records k ∙ (reads_alike h v laws w known s).records k in
      inr (
        ap (Option.map content) same,
        λ c. q.0 (s.same_pin k ∙ safe (sym (ap claims_pin same) ∙ c)),
      )

  -- A pin, then a write that stores a record claiming it, or the baseline.
  pin_then-Post :
      (k : Text) (previous : Option FileRecord) (staged : Bool) (w known : h.World)
      (write : h.World → h.World × Result FileRecord) (undo_pin : Bool → Bool)
      → Protected h v k w
      → Same h v w known
      → previous ≡ record_at h v w k
      → ((created : Bool) → undo_pin created ≡ true → created ≡ true)
      → ((pinned : h.World)
          → Post
              (λ r after.
                (record_at h v after k ≡ some r)
                × (r.pinned ≡ true)
                × (v.pin_at after k ≡ v.pin_at pinned k))
              (λ e after. v.pin_at after k ≡ v.pin_at pinned k)
              (write pinned))
      → Post (Held k) (Undone h v k w) (
          and_then (pin_file h false k known) (λ created pinned.
            or_else
              (and_then
                (write pinned)
                (λ r after. (after, ok (record { stored = r; staged = staged }))))
              (restore_stage_write h k previous (undo_pin created))))
  pin_then-Post k previous staged w known write undo_pin safe s same only writes =
      and_then-Post _ (pin_file-created h v laws false k known)
        (λ created pinned p.
          or_else-Post {E = λ x after. v.pin_at after k ≡ true} _
            (and_then-Post _ (writes pinned) (λ r after q. on_ok (q.0, q.1, q.2 ∙ p.1))
              (λ x after q. q ∙ p.1))
            (λ a after q. q)
            (λ x after q.
              restore_stage_write-Post _ k w after previous (undo_pin created) x same
                (λ c. new_pin k w known previous created safe s same p.0 (only created c), q)))
        (λ x after q. pin_failed k w known after x safe s q)

  save_claiming :
      (k : Text) (r : FileRecord) (w : h.World)
      → r.cid ≡ k
      → r.pinned ≡ true
      → Post
          (λ s after.
            (record_at h v after k ≡ some s)
            × (s.pinned ≡ true)
            × (v.pin_at after k ≡ v.pin_at w k))
          (λ e after. v.pin_at after k ≡ v.pin_at w k)
          (save h r w)
  save_claiming k r w own claim =
      weaken-Post (save-Post h v laws r w)
        (λ s after q. (
          subst (λ j. record_at h v after j ≡ some s) own q.0,
          ap (λ (x : FileRecord). x.pinned) q.1 ∙ claim,
          q.2.pins k,
        ))
        (λ e after q. q.pins k)

  measure_and_save-Post :
      (k : Text) (describe : Stats → FileRecord) (w : h.World)
      → ((s : Stats) → (describe s).cid ≡ k)
      → ((s : Stats) → (describe s).pinned ≡ true)
      → Post
          (λ r after.
            (record_at h v after k ≡ some r)
            × (r.pinned ≡ true)
            × (v.pin_at after k ≡ v.pin_at w k))
          (λ e after. v.pin_at after k ≡ v.pin_at w k)
          (measure_and_save h k describe w)
  unfolding measure_and_save
  measure_and_save-Post k describe w own claim =
      and_then-Post _ (laws.stat_lem k w)
        (λ stats measured s.
          weaken-Post (save_claiming k (describe stats) measured (own stats) (claim stats))
            (λ r after q. (q.0, q.1, q.2 ∙ s.same_pin k)) (λ e after q. q ∙ s.same_pin k))
        (λ e measured s. s.same_pin k)

  module _ (o : ReplicaStageTarget) where
    begin_stage-Post :
        (previous : Option FileRecord) (w known : h.World)
        → Protected h v o.cid w
        → Same h v w known
        → previous ≡ record_at h v w o.cid
        → Post (Held o.cid) (Undone h v o.cid w) (begin_stage h o previous known)
    unfolding begin_stage pin_and_save stable_record staged_record
    begin_stage-Post previous w known safe s same =
        if-Post (belongs_to_upload previous)
          (λ t. on_threw (
            untouched h v laws o.cid w known (failure (text "CID belongs to a local upload")) safe
              s))
          (λ free.
            and_then-Post _ (is_directly_pinned-Post h v laws o.cid known)
              (λ pinned asked q.
                let before = Same-trans h v s q.1 in
                if-Post (pinned || was_confirmed previous)
                  (λ t.
                    pin_then-Post o.cid previous false w asked
                      (measure_and_save h o.cid (stable_record o previous)) (λ c. c) safe before
                      same (λ c e. e)
                      (λ x. measure_and_save-Post o.cid _ x (λ y. refl) (λ y. refl)))
                  (λ t.
                    pin_then-Post o.cid previous true w asked
                      (measure_and_save h o.cid (staged_record o previous)) (λ c. c) safe before
                      same (λ c e. e)
                      (λ x. measure_and_save-Post o.cid _ x (λ y. refl) (λ y. refl))))
              (λ x asked q. untouched h v laws o.cid w asked x safe (Same-trans h v s q)))

    join_stage-Post :
        (r : FileRecord) (stage : ReplicaStage) (w known : h.World)
        → Protected h v o.cid w
        → Same h v w known
        → some r ≡ record_at h v w o.cid
        → Post (Held o.cid) (Undone h v o.cid w) (join_stage h o r stage known)
    unfolding join_stage joined_record
    join_stage-Post r stage w known safe s same =
        if-Post
          (not (contains o.transaction_id stage.transaction_ids)
            || is_stage_owner (origin_of stage.origins o.transaction_id) o.origin_peer_id)
          (λ t.
            pin_then-Post o.cid (some r) true w known (save h (joined_record o r stage))
              (λ c. false) safe s same (λ c e. cc)
              (λ x.
                save_claiming o.cid (joined_record o r stage) x
                  (record_at-cid h v w o.cid r (sym same)) refl))
          (λ t. on_threw (
            untouched h v laws o.cid w known
              (failure (text "Replica transaction was staged by another peer")) safe s))

    -- Where a record that claims a pin has one, a stage either returns, having stored a record that
    -- claims the pin, which is there; or it throws, and then the record, but for its revision, is as
    -- before and still has the pin that it claims, unless the error is the aggregate that reports an
    -- incomplete rollback.
    pub stage_replica-Post :
        (ts : Tombstones) (w : h.World)
        → Protected h v o.cid w
        → Post (Held o.cid) (Undone h v o.cid w) (stage_replica h o ts w).1
    unfolding stage_replica stage_found
    stage_replica-Post ts w safe =
        answer (was_aborted o.cid o.transaction_id o.origin_peer_id o.now ts)
      where
        staged :
            (r : FileRecord) (known : h.World)
            → Same h v w known
            → some r ≡ record_at h v w o.cid
            → (s : Option ReplicaStage)
            → Post (Held o.cid) (Undone h v o.cid w) (elim s [
              | none ↦ begin_stage h o (some r) known
              | some stage ↦ join_stage h o r stage known
            ])
        staged r known s same none = begin_stage-Post (some r) w known safe s same
        staged r known s same (some stage) = join_stage-Post r stage w known safe s same

        found :
            (o_found : Option FileRecord) (known : h.World)
            → o_found ≡ record_at h v w o.cid
            → Same h v w known
            → Post (Held o.cid) (Undone h v o.cid w) (stage_found h o o_found known)
        found none known same s = begin_stage-Post none w known safe s same
        found (some r) known same s = staged r known s same r.replica_stage

        answer :
            (p : Tombstones × Bool)
            → Post (Held o.cid) (Undone h v o.cid w) (
                let run : Tombstones × (h.World × Result ReplicaStageResult) =
                  if p.1
                  then (p.0, (w, threw (failure (text "Replica transaction was already aborted"))))
                  else (p.0, and_then (get h o.cid w) (stage_found h o)) in
                run.1)
        answer (kept, true) = on_threw (
            untouched h v laws o.cid w w (failure (text "Replica transaction was already aborted"))
              safe (record { same_value = λ j. refl; same_pin = λ j. refl }))
        answer (kept, false) =
            and_then-Post (stage_found h o) (get-Post h v laws o.cid w)
              (λ r known q. found r known q.0 q.1)
              (λ e known s. untouched h v laws o.cid w known e safe s)
