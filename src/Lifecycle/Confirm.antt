-- ===== src/Lifecycle/Confirm.antt =====
-- Pinning and confirming a file (`registerPinnedFile` and `confirmStoredFile` in
-- src/storage/lifecycle.ts).
use ipfs_node.Base.Texts.{Text}
use ipfs_node.Base.{
  Bool, true, false, ◌≡◌, refl, sym, ap, subst, ◌∙◌, Option, none, some, if◌then◌else◌,
}
use ipfs_node.Registry.{
  FileRecord, confirmed, Process, is_lifecycle_busy, is_active_repair, is_confirmed,
}
use ipfs_node.Host.{Host, ok, and_then, busy}
use ipfs_node.Host.Laws.{Post, on_ok, on_threw, HostView, HostLaws, Same}
use ipfs_node.FileRegistry.{
  save, register_exclusively, register_existing, NewFileRecord, RegisterFileOptions, Registered,
  new_record, kept_confirmed, to_write, is_staged_for_other, is_owned_by_other,
}
use ipfs_node.Lifecycle.{
  RegisterPinnedOptions, restore_lifecycle_baseline, confirmed_record, claims_pin, pin_and_register,
  register_pinned_under_lock, register_pinned_file, confirm_known, confirm_under_lock,
}
use ipfs_node.Lifecycle.Steps.{
  and_then-Post, or_else-Post, weaken-Post, if-Post, record_at, record_at-cid, get-Post, save-Post,
  SamePins, Same-trans, reads_alike, pin_file-Post, was_pinned-Post,
}
use ipfs_node.Lifecycle.Rollback.{Protected, Undone, restore_lifecycle_baseline-Post}
use ipfs_node.Lifecycle.Release.{untouched}

cid-new_record :
    (o : Option FileRecord) (file : NewFileRecord) (options : RegisterFileOptions)
    → (new_record o file options).cid ≡ file.cid
unfolding new_record
cid-new_record o file options = refl

cid-kept :
    (r : FileRecord) (file : NewFileRecord) (options : RegisterFileOptions)
    → (kept_confirmed r file options).cid ≡ r.cid
unfolding kept_confirmed
cid-kept r file options = refl

cid-to_write :
    (r : FileRecord) (file : NewFileRecord) (options : RegisterFileOptions)
    → r.cid ≡ file.cid
    → (to_write (some r) file options).cid ≡ file.cid
cid-to_write r file options e = go (is_confirmed r.state)
  where
    go :
        (t : Bool)
        → (if t then kept_confirmed r file options else new_record (some r) file options).cid
          ≡ file.cid
    go true = cid-kept r file options ∙ e
    go false = cid-new_record (some r) file options

module _ (h : Host) (v : HostView h) where
  -- What pinning leaves behind when it returns.
  abbrev pub Stored : Text → FileRecord → h.World → Type 0
  Stored k s after = (record_at h v after k ≡ some s) × (v.pin_at after k ≡ true)

  module _ (laws : HostLaws h v) where
    abbrev Written : Text → h.World → FileRecord → h.World → Type 0
    Written k w s after = (record_at h v after k ≡ some s) × SamePins h v laws w after

    no_pins : (w : h.World) → SamePins h v laws w w
    no_pins w = record { pins = λ j. refl }

    saved :
        (k : Text) (w : h.World) (r : FileRecord) (o : Option FileRecord)
        → r.cid ≡ k
        → Post
            (λ (x : Registered) after. Written k w x.stored after)
            (λ e after. SamePins h v laws w after)
            (and_then (save h r w) (λ s after. (after, ok (record { stored = s; previous = o }))))
    saved k w r o e =
        and_then-Post _ (save-Post h v laws r w)
          (λ s after q. on_ok (subst (λ c. record_at h v after c ≡ some s) e q.0, q.2))
          (λ x after q. q)

    register_existing-Post :
        (p : Process) (file : NewFileRecord) (options : RegisterFileOptions) (o : Option FileRecord)
        (w : h.World)
        → o ≡ record_at h v w file.cid
        → Post
            (λ x after. Written file.cid w x.stored after)
            (λ e after. SamePins h v laws w after)
            (register_existing h p file options o w)
    unfolding register_existing
    register_existing-Post p file options none w e =
        if-Post (is_active_repair p file.cid) (λ x. on_threw (no_pins w))
          (λ x.
            saved file.cid w (new_record none file options) none (cid-new_record none file options))
    register_existing-Post p file options (some r) w e =
        if-Post (is_active_repair p file.cid) (λ x. on_threw (no_pins w))
          (λ x.
            if-Post (is_staged_for_other (some r) options) (λ y. on_ok (sym e, no_pins w))
              (λ y.
                if-Post (is_owned_by_other p (some r) options) (λ z. on_threw (no_pins w))
                  (λ z.
                    saved file.cid w (to_write (some r) file options) (some r)
                      (cid-to_write r file options (record_at-cid h v w file.cid r (sym e))))))

    register_exclusively-Post :
        (p : Process) (file : NewFileRecord) (options : RegisterFileOptions) (w : h.World)
        → Post
            (λ x after. Written file.cid w x.stored after)
            (λ e after. SamePins h v laws w after)
            (register_exclusively h p file options w)
    unfolding register_exclusively
    register_exclusively-Post p file options w =
        and_then-Post _ (get-Post h v laws file.cid w)
          (λ o after q.
            weaken-Post
              (register_existing-Post p file options o after
                (q.0 ∙ sym ((reads_alike h v laws w after q.1).records file.cid)))
              (λ x later t. (t.0, record { pins = λ j. t.1.pins j ∙ q.1.same_pin j }))
              (λ x later t. record { pins = λ j. t.pins j ∙ q.1.same_pin j }))
          (λ e after q. record { pins = q.same_pin })

    pin_and_register-Post :
        (p : Process) (options : RegisterPinnedOptions) (w : h.World)
        → Post (Stored options.cid) (λ e after. Unit) (pin_and_register h p options w)
    unfolding pin_and_register
    pin_and_register-Post p options w =
        and_then-Post _ (pin_file-Post h v laws options.timed options.cid w)
          (λ created pinned q.
            and_then-Post _ (laws.stat_lem options.cid pinned)
              (λ stats measured s.
                and_then-Post _ (register_exclusively-Post p _ _ measured)
                  (λ x after t. on_ok (t.0, t.1.pins options.cid ∙ s.same_pin options.cid ∙ q.0))
                  (λ e after t. tt))
              (λ e after s. tt))
          (λ e after q. tt)

    register_pinned_under_lock-Post :
        (p : Process) (options : RegisterPinnedOptions) (o : Option FileRecord) (w known : h.World)
        → Protected h v options.cid w
        → Same h v w known
        → o ≡ record_at h v w options.cid
        → Post
            (Stored options.cid)
            (Undone h v options.cid w)
            (register_pinned_under_lock h p options o known)
    unfolding register_pinned_under_lock
    register_pinned_under_lock-Post p options o w known safe s e =
        and_then-Post _ (was_pinned-Post h v laws (claims_pin o) options.cid known)
          (λ was after q.
            or_else-Post (restore_lifecycle_baseline h options.timed options.cid o was)
              (pin_and_register-Post p options after) (λ x later t. t)
              (λ y later t.
                restore_lifecycle_baseline-Post h v laws (Stored options.cid) options.timed
                  options.cid w later was y o q.0 e))
          (λ y after q. untouched h v laws options.cid w after y safe (Same-trans h v s q))

    -- Where a record that claims a pin has one, pinning and registering a file either returns a stored
    -- record whose CID is pinned; or it throws, and then the record, but for its revision, is as before
    -- and still has the pin that it claims, unless the error is the aggregate that reports an incomplete
    -- rollback.
    pub register_pinned_file-Post :
        (p : Process) (options : RegisterPinnedOptions) (w : h.World)
        → Protected h v options.cid w
        → Post (Stored options.cid) (Undone h v options.cid w) (register_pinned_file h p options w)
    unfolding register_pinned_file
    register_pinned_file-Post p options w safe =
        and_then-Post _ (get-Post h v laws options.cid w)
          (λ o known q. register_pinned_under_lock-Post p options o w known safe q.1 q.0)
          (λ e known s. untouched h v laws options.cid w known e safe s)

  -- What a confirmation leaves behind when it returns.
  abbrev pub Confirmed : Text → h.World → Option FileRecord → h.World → Type 0
  Confirmed k w none after = (record_at h v w k ≡ none) × Same h v w after
  Confirmed k w (some s) after =
      Stored k s after × ((r : FileRecord) → record_at h v w k ≡ some r → s.state ≡ confirmed)

  module _ (laws : HostLaws h v) where
    confirm_known-Post :
        (p : Process) (options : RegisterPinnedOptions) (r : FileRecord) (w known : h.World)
        → Protected h v options.cid w
        → Same h v w known
        → some r ≡ record_at h v w options.cid
        → Post
            (Confirmed options.cid w)
            (Undone h v options.cid w)
            (confirm_known h p options r known)
    unfolding confirm_known confirmed_record
    confirm_known-Post p options r w known safe s e =
        let k = options.cid in
        if-Post (is_lifecycle_busy p r)
          (λ x. on_threw (untouched h v laws k w known (busy k) safe s))
          (λ x.
            and_then-Post _ (was_pinned-Post h v laws r.pinned k known)
              (λ was after q.
                or_else-Post {E = λ y later. Unit}
                  (restore_lifecycle_baseline h options.timed k (some r) was)
                  (and_then-Post _ (pin_file-Post h v laws options.timed k after)
                    (λ created pinned u.
                      and_then-Post _ (save-Post h v laws (confirmed_record r options.now) pinned)
                        (λ stored later t. on_ok (
                          (
                            subst (λ c. record_at h v later c ≡ some stored)
                                (record_at-cid h v w k r (sym e)) t.0,
                            t.2.pins k ∙ u.0,
                          ),
                          λ y z. ap (λ (b : FileRecord). b.state) t.1,
                        ))
                        (λ y later t. tt))
                    (λ y later t. tt))
                  (λ o later t. t)
                  (λ y later t.
                    restore_lifecycle_baseline-Post h v laws (Confirmed k w) options.timed k w later
                      was y (some r) q.0 e))
              (λ y after q. untouched h v laws k w after y safe (Same-trans h v s q)))

    -- Where a record that claims a pin has one, a confirmation under the lock either returns: a stored
    -- record whose CID is pinned, and which is confirmed if the registry knew the CID, or nothing, and
    -- then the CID was unknown and nothing is touched; or it throws, and then the record, but for its
    -- revision, is as before and still has the pin that it claims, unless the error is the aggregate
    -- that reports an incomplete rollback.
    pub confirm_under_lock-Post :
        (p : Process) (options : RegisterPinnedOptions) (register_unknown : Bool) (w : h.World)
        → Protected h v options.cid w
        → Post
            (Confirmed options.cid w)
            (Undone h v options.cid w)
            (confirm_under_lock h p options register_unknown w)
    unfolding confirm_under_lock
    confirm_under_lock-Post p options register_unknown w safe =
        and_then-Post _ (get-Post h v laws options.cid w) (λ o known q. found o known q.0 q.1)
          (λ e known s. untouched h v laws options.cid w known e safe s)
      where
        found :
            (o : Option FileRecord) (known : h.World)
            → o ≡ record_at h v w options.cid
            → Same h v w known
            → Post (Confirmed options.cid w) (Undone h v options.cid w) (elim o [
              | none ↦
                  if register_unknown
                  then and_then
                      (register_pinned_under_lock h p options none known)
                      (λ s after. (after, ok (some s)))
                  else (known, ok none)
              | some r ↦ confirm_known h p options r known
            ])
        found none known e s =
            if-Post register_unknown
              (λ x.
                and_then-Post _
                  (register_pinned_under_lock-Post laws p options none w known safe s e)
                  (λ stored after t. on_ok (t, λ r z. cc (z, e))) (λ y after t. t))
              (λ x. on_ok (sym e, s))
        found (some r) known e s = confirm_known-Post p options r w known safe s e
