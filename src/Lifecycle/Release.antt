-- ===== src/Lifecycle/Release.antt =====
-- Releasing a file (`releaseStoredFile` in src/storage/lifecycle.ts).
use mathlib.Core.Option
use ipfs_node.Base.Texts.{Text}
use ipfs_node.Base.{false, ◌≡◌, sym, ap, subst, ◌∙◌, inr, Option, none, some}
use ipfs_node.Registry.{FileRecord, expired, Process, is_lifecycle_busy}
use ipfs_node.Host.{Host, Error, ok, busy}
use ipfs_node.Host.Laws.{Post, on_ok, on_threw, HostView, HostLaws, Same}
use ipfs_node.Lifecycle.{
  restore_lifecycle_baseline, released_record, release_known, release_stored_file, claims_pin,
}
use ipfs_node.Lifecycle.Steps.{
  and_then-Post, or_else-Post, if-Post, content, record_at, record_at-cid, get-Post, save-Post,
  Same-trans, reads_alike, unpin_file-Post, was_pinned-Post,
}
use ipfs_node.Lifecycle.Rollback.{Protected, Undone, restore_lifecycle_baseline-Post}

module _ (h : Host) (v : HostView h) where
  -- What a release leaves behind when it returns.
  abbrev pub Released : Text → h.World → Option FileRecord → h.World → Type 0
  Released k w none after = (record_at h v w k ≡ none) × Same h v w after
  Released k w (some s) after =
      (record_at h v after k ≡ some s)
      × (s.state ≡ expired)
      × (s.pinned ≡ false)
      × (v.pin_at after k ≡ false)

  module _ (laws : HostLaws h v) where
    -- A world that reads alike leaves everything as it was.
    pub untouched :
        (k : Text) (w after : h.World) (e : Error)
        → Protected h v k w
        → Same h v w after
        → Undone h v k w e after
    untouched k w after e p s =
        let same = (reads_alike h v laws w after s).records k in
        inr (ap (Option.map content) same, λ x. s.same_pin k ∙ p (sym (ap claims_pin same) ∙ x))

    release_known-Post :
        (p : Process) (k : Text) (r : FileRecord) (w known : h.World)
        → Protected h v k w
        → Same h v w known
        → some r ≡ record_at h v w k
        → Post (Released k w) (Undone h v k w) (release_known h p k r known)
    unfolding release_known released_record
    release_known-Post p k r w known safe s e =
        let cid_k = record_at-cid h v w k r (sym e) in
        if-Post (is_lifecycle_busy p r) (λ x. on_threw (untouched k w known (busy k) safe s))
          (λ x.
            and_then-Post _ (was_pinned-Post h v laws r.pinned k known)
              (λ was after q.
                or_else-Post {E = λ y later. Unit}
                  (restore_lifecycle_baseline h false k (some r) was)
                  (and_then-Post _ (unpin_file-Post h v laws k after)
                    (λ removed unpinned u.
                      and_then-Post _ (save-Post h v laws (released_record r) unpinned)
                        (λ stored later t. on_ok (
                          subst (λ c. record_at h v later c ≡ some stored) cid_k t.0,
                          ap (λ (y : FileRecord). y.state) t.1,
                          ap (λ (y : FileRecord). y.pinned) t.1,
                          t.2.pins k ∙ u.0,
                        ))
                        (λ y later t. tt))
                    (λ y later t. tt))
                  (λ o later t. t)
                  (λ y later t.
                    restore_lifecycle_baseline-Post h v laws (Released k w) false k w later was y
                      (some r) q.0 e))
              (λ y after q. untouched k w after y safe (Same-trans h v s q)))

    -- Where a record that claims a pin has one, a release either returns, having stored the record as
    -- expired and unpinned and taken the pin away, or having found no record and touched nothing; or
    -- it throws, and then the record, but for its revision, is as before and still has the pin that it
    -- claims, unless the error is the aggregate that reports an incomplete rollback.
    pub release_stored_file-Post :
        (p : Process) (k : Text) (w : h.World)
        → Protected h v k w
        → Post (Released k w) (Undone h v k w) (release_stored_file h p k w)
    unfolding release_stored_file
    release_stored_file-Post p k w safe =
        and_then-Post _ (get-Post h v laws k w) (λ o known q. found o known q.0 q.1)
          (λ e known s. untouched k w known e safe s)
      where
        found :
            (o : Option FileRecord) (known : h.World)
            → o ≡ record_at h v w k
            → Same h v w known
            → Post
                (Released k w)
                (Undone h v k w)
                (elim o [ none ↦ (known, ok none) | some r ↦ release_known h p k r known ])
        found none known e s = on_ok (sym e, s)
        found (some r) known e s = release_known-Post p k r w known safe s e
