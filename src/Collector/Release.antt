-- ===== src/Collector/Release.antt =====
-- About the release of one file by `runGarbageCollection` (src/storage/gc.ts).
use ipfs_node.Base.Texts.{Text, text_eq_iff}
use ipfs_node.Base.{
  ℕ, ◌≢◌, arith, Option-cases, Bool, true, false, ◌≡◌, refl, sym, ap, subst, ◌∙◌, ◌⊎◌, inl, inr,
  ◌&&◌, Option, none, some,
}
use ipfs_node.Registry.{
  FileRecord, FileState, confirmed, expired, ReplicaStage, ReplicaStageBaseline, Process, Revision,
  uuid, stamp, contains, is_confirmed, is_admission_in_flight, is_admission_settled,
  is_active_admission,
}
use ipfs_node.Admission.{same_revision}
use ipfs_node.Host.{Host, Error, Result, ok, threw, and_then}
use ipfs_node.Host.Laws.{Post, on_ok, on_threw, HostView, HostLaws, Same}
use ipfs_node.FileRegistry.{get, save}
use ipfs_node.Lifecycle.{released_record}
use ipfs_node.Lifecycle.Steps.{
  and_then-Post, or_else-Post, ending-Post, weaken-Post, if-Post, record_at, record_at-cid,
  get-Post, save-Post, unpin_file-Post,
}
use ipfs_node.Replica.Settling.{restore_replica_stage, write_baseline, baseline_of}
use ipfs_node.Collector.{
  Collector, is_as_planned, undo_release, release_plain, release_current, release_found,
  release_one,
}

module _ (h : Host) (v : HostView h) (c : Collector h) where
  -- No upload owns the record: it names none, or one that has settled, and that no request of the
  -- process is running for.
  pub data IsFree (p : Process) (r : FileRecord) : Type 0 where
    no_owner : r.admission_id ≡ none → IsFree p r
    settled_owner :
        {id : Text} {t : ℕ}
        → r.admission_id ≡ some id
        → r.admission_settled_at ≡ some t
        → contains id p.active_admissions ≡ false
        → IsFree p r

  -- The record is the revision that the plan was made for, it is not confirmed, and no upload owns it
  -- when it has been read.
  pub record Planned (selected : FileRecord) (w : h.World) : Type 0 where
    pub file : FileRecord
    pub found : record_at h v w selected.cid ≡ some file
    pub revision : file.revision ≡ selected.revision
    pub not_confirmed : file.state ≢ confirmed
    pub free : IsFree (c.process (get h selected.cid w).0) file

  same_revision_lem : (a b : Option Revision) → same_revision a b ≡ true → a ≡ b
  unfolding same_revision
  same_revision_lem none none e = refl
  same_revision_lem none (some b) e = cc e
  same_revision_lem (some (uuid a)) none e = cc e
  same_revision_lem (some (stamp a)) none e = cc e
  same_revision_lem (some (uuid a)) (some (uuid b)) e =
      ap (λ t. some (uuid t)) ((text_eq_iff a b).0 e)
  same_revision_lem (some (uuid a)) (some (stamp b)) e = cc e
  same_revision_lem (some (stamp a)) (some (uuid b)) e = cc e
  same_revision_lem (some (stamp a)) (some (stamp b)) e =
      ap (λ n. some (stamp n)) (ground (arith, e))

  is_confirmed_lem : (s : FileState) → is_confirmed s ≡ false → s ≢ confirmed
  is_confirmed_lem s e x = cc (e, ap is_confirmed x)

  in_flight_lem : (p : Process) (r : FileRecord) → is_admission_in_flight p r ≡ false → IsFree p r
  unfolding is_admission_in_flight is_admission_settled is_active_admission
  in_flight_lem p r e = elim (Option-cases r.admission_id) [
    | inl x ↦ no_owner x
    | inr (id, x) ↦ elim (Option-cases r.admission_settled_at) [
      | inl y ↦ ground (arith, e, x, y)
      | inr (t, y) ↦ settled_owner x y (ground (arith, e, x, y))
    ]
  ]

  as_planned_lem :
      (selected file : FileRecord) (w : h.World)
      → record_at h v w selected.cid ≡ some file
      → is_as_planned (c.process (get h selected.cid w).0) selected file ≡ true
      → Planned selected w
  unfolding is_as_planned
  as_planned_lem selected file w found e = record {
    file = file;
    found = found;
    revision = same_revision_lem file.revision selected.revision (ground (arith, e));
    not_confirmed = is_confirmed_lem file.state (ground (arith, e));
    free = in_flight_lem (c.process (get h selected.cid w).0) file (ground (arith, e));
  }

  -- What a release that returns leaves behind.
  abbrev pub Settled : FileRecord → h.World → Option FileRecord → h.World → Type 0
  Settled selected w none after = Same h v w after
  Settled selected w (some s) after =
      Planned selected w
      × (record_at h v after selected.cid ≡ some s)
      × (s.state ≡ expired)
      × (s.pinned ≡ false)
      × (v.pin_at after selected.cid ≡ false)

  module _ (laws : HostLaws h v) where
    -- The write of an expired record after the pin has gone.
    abbrev Expired : Text → Option FileRecord → h.World → Type 0
    Expired k none after = ⊥
    Expired k (some s) after =
        (record_at h v after k ≡ some s)
        × (s.state ≡ expired)
        × (s.pinned ≡ false)
        × (v.pin_at after k ≡ false)

    save_expired :
        (k : Text) (r : FileRecord) (w : h.World)
        → r.cid ≡ k
        → r.state ≡ expired
        → r.pinned ≡ false
        → v.pin_at w k ≡ false
        → Post
            (Expired k)
            (λ e after. Unit {0})
            (and_then (save h r w) (λ s after. (after, ok (some s))))
    save_expired k r w own state claim gone =
        and_then-Post _ (save-Post h v laws r w)
          (λ s after q. on_ok (
            subst (λ j. record_at h v after j ≡ some s) own q.0,
            ap (λ (x : FileRecord). x.state) q.1 ∙ state,
            ap (λ (x : FileRecord). x.pinned) q.1 ∙ claim,
            q.2.pins k ∙ gone,
          ))
          (λ e after q. tt)

    write_baseline-Expired :
        (removed : Bool) (r : FileRecord) (b : Option ReplicaStageBaseline) (w : h.World)
        → v.pin_at w r.cid ≡ false
        → Post (Expired r.cid) (λ e after. Unit {0}) (write_baseline h removed r b true w)
    unfolding write_baseline baseline_of
    write_baseline-Expired removed r none w gone =
        save_expired r.cid (baseline_of r none) w refl refl refl gone
    write_baseline-Expired removed r (some b) w gone =
        save_expired r.cid (baseline_of r (some b)) w refl refl refl gone

    any_error :
        {A : Type 0} (Q : A → h.World → Type 0) (m : h.World × Result Bool) (e : Error)
        → Post Q (λ x after. Unit {0}) (and_then m (λ b after. (after, threw e)))
    unfolding and_then
    any_error Q (w, ok b) e = on_threw tt
    any_error Q (w, threw x) e = on_threw tt

    release_current-Expired :
        (r : FileRecord) (w : h.World)
        → Post (Expired r.cid) (λ e after. Unit {0}) (release_current h c r w)
    unfolding release_current release_plain undo_release restore_replica_stage released_record
    release_current-Expired r w = go r.replica_stage
      where
        go :
            (s : Option ReplicaStage)
            → Post {W = h.World} {A = Option FileRecord}
                (Expired r.cid)
                (λ e after. Unit {0})
                (elim s [
                  | none ↦ release_plain h c r w
                  | some x ↦ restore_replica_stage h r x.previous true w
                ])
        go none =
            and_then-Post _ (unpin_file-Post h v laws r.cid w)
              (λ removed unpinned q.
                or_else-Post {E = λ e after. Unit {0}} _
                  (save_expired r.cid (released_record r) unpinned refl refl refl q.0)
                  (λ o after x. x)
                  (λ e after x.
                    if-Post (removed && r.pinned) (λ t. any_error (Expired r.cid) _ e)
                      (λ t. on_threw tt)))
              (λ e after q. tt)
        go (some x) =
            and_then-Post _ (unpin_file-Post h v laws r.cid w)
              (λ removed unpinned q. write_baseline-Expired removed r x.previous unpinned q.0)
              (λ e after q. tt)

    -- Whatever other tasks did since the plan was made: a release changes something only if the
    -- record that it finds has the revision that was planned, is not confirmed, and, when it has
    -- been read, names no upload, or one that has settled and has no running request. Where it
    -- answers a record, that record is stored as expired and unpinned and the pin is gone; where it
    -- answers none, it has changed nothing.
    pub release_one-Settled :
        (selected : FileRecord) (w : h.World)
        → Post
            (Settled selected w)
            (λ e after. Same h v w after ⊎ Planned selected w)
            (release_one h c selected w)
    unfolding release_one release_found
    release_one-Settled selected w =
        and_then-Post _ (ending-Post (get-Post h v laws selected.cid w))
          (λ o known q. found o known q.0.0 q.0.1 q.1) (λ e known s. inl s)
      where
        settled :
            (r : FileRecord) (p : Planned selected w) (o : Option FileRecord) (after : h.World)
            → r.cid ≡ selected.cid
            → Expired r.cid o after
            → Settled selected w o after
        settled r p none after own q = elim q [ ]
        settled r p (some s) after own q = (
          p,
          subst (λ j. record_at h v after j ≡ some s) own q.0,
          q.1,
          q.2,
          subst (λ j. v.pin_at after j ≡ false) own q.3,
        )

        found :
            (o : Option FileRecord) (known : h.World)
            → o ≡ record_at h v w selected.cid
            → Same h v w known
            → known ≡ (get h selected.cid w).0
            → Post
                (Settled selected w)
                (λ e after. Same h v w after ⊎ Planned selected w)
                (release_found h c selected o known)
        found none known e s here = on_ok s
        found (some r) known e s here =
            if-Post (is_as_planned (c.process known) selected r)
              (λ t.
                let p : Planned selected w =
                  as_planned_lem selected r w (sym e)
                    (subst (λ x. is_as_planned (c.process x) selected r ≡ true) here t) in
                weaken-Post (release_current-Expired r known)
                  (λ o after q. settled r p o after (record_at-cid h v w selected.cid r (sym e)) q)
                  (λ x after q. inr p))
              (λ t. on_ok s)
