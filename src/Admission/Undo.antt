-- ===== src/Admission/Undo.antt =====
-- About `rollbackUpload` (src/storage/rollback.ts).
use mathlib.Core.Option
use ipfs_node.Base.Texts.{Text, text_eq_iff}
use ipfs_node.Base.{
  true, false, ◌≡◌, ◌≢◌, ◌↔◌, refl, sym, ap, subst, ◌∙◌, ◌&&◌, not, ◌⊎◌, inl, inr, Option, none,
  some, is_some, arith, Bool-cases,
}
use ipfs_node.Registry.{FileRecord}
use ipfs_node.Host.{Host}
use ipfs_node.Host.Laws.{Post, on_ok, HostView, HostLaws, Same}
use ipfs_node.FileRegistry.{same_token}
use ipfs_node.Admission.{UploadRollback, undo_pin, undo_upload, rollback_upload, token_of}
use ipfs_node.Lifecycle.{claims_pin}
use ipfs_node.Lifecycle.Rollback.{restore_record-Post}
use ipfs_node.Lifecycle.Steps.{and_then-Post, weaken-Post, if-Post, content, record_at, get-Post}

module _ (h : Host) (v : HostView h) where
  -- The upload still owns the record, or it has no token and the caller kept the lock.
  abbrev pub Owned : UploadRollback h → h.World → Type 0
  Owned o w = (o.admission_id ≡ none) ⊎ (token_of (record_at h v w o.cid) ≡ o.admission_id)

  -- Another lifecycle owns the record, and nothing has been touched.
  abbrev pub Adopted : UploadRollback h → h.World → h.World → Type 0
  Adopted o w after =
      (o.admission_id ≢ none)
      × (token_of (record_at h v w o.cid) ≢ o.admission_id)
      × Same h v w after

  -- The pin is gone where the upload created it and the replaced record claimed none, else as it was.
  pub data PinUndone (o : UploadRollback h) (w after : h.World) : Type 0 where
    unpinned :
        o.created_pin ≡ true
        → claims_pin o.previous ≡ false
        → v.pin_at after o.cid ≡ false
        → PinUndone o w after
    not_created :
        o.created_pin ≡ false → v.pin_at after o.cid ≡ v.pin_at w o.cid → PinUndone o w after
    claimed :
        claims_pin o.previous ≡ true → v.pin_at after o.cid ≡ v.pin_at w o.cid → PinUndone o w after

  abbrev pub Reverted : UploadRollback h → h.World → h.World → Type 0
  Reverted o w after =
      (Option.map content (record_at h v after o.cid) ≡ Option.map content o.previous)
      × PinUndone o w after

  -- PinUndone is about the pin of its CID alone.
  pin_moved :
      (o : UploadRollback h) (w v' mid after : h.World)
      → v.pin_at v' o.cid ≡ v.pin_at w o.cid
      → v.pin_at after o.cid ≡ v.pin_at mid o.cid
      → PinUndone o v' mid
      → PinUndone o w after
  pin_moved o w v' mid after a b (unpinned x y q) = unpinned x y (b ∙ q)
  pin_moved o w v' mid after a b (not_created x q) = not_created x (b ∙ (q ∙ a))
  pin_moved o w v' mid after a b (claimed x q) = claimed x (b ∙ (q ∙ a))

  same_token_iff : (a b : Option Text) → same_token a b ≡ true ↔ a ≡ b
  unfolding same_token
  same_token_iff none none = ((λ e. refl), (λ e. refl))
  same_token_iff none (some b) = ((λ e. cc e), (λ e. cc e))
  same_token_iff (some a) none = ((λ e. cc e), (λ e. cc e))
  same_token_iff (some a) (some b) =
      ((λ e. ap (λ (t : Text). some t) ((text_eq_iff a b).0 e)), (λ e. (text_eq_iff a b).1 (cc e)))

  module _ (laws : HostLaws h v) (o : UploadRollback h)
      (unpins : (w : h.World)
        → Post (λ d after. v.pin_at after o.cid ≡ false) (λ e after. Unit) (o.unpin w))
      (own : (r : FileRecord) → o.previous ≡ some r → r.cid ≡ o.cid) where
    undo_pin-Post :
        (w : h.World) → Post (λ d after. PinUndone o w after) (λ e after. Unit) (undo_pin h o w)
    unfolding undo_pin
    undo_pin-Post w =
        if-Post (o.created_pin && not (claims_pin o.previous))
          (λ e.
            weaken-Post (unpins w) (λ d after q. unpinned (ground (arith, e)) (ground (arith, e)) q)
              (λ e after q. tt))
          (λ e. on_ok (elim (Bool-cases o.created_pin) [
            | inl x ↦ claimed (ground (arith, e, x)) refl
            | inr x ↦ not_created x refl
          ]))

    undo_upload-Post :
        (w known : h.World)
        → v.pin_at known o.cid ≡ v.pin_at w o.cid
        → Post (λ d after. Reverted o w after) (λ e after. Unit) (undo_upload h o known)
    unfolding undo_upload
    undo_upload-Post w known same =
        and_then-Post _ (undo_pin-Post known)
          (λ d mid p.
            weaken-Post (restore_record-Post h v laws o.cid o.previous mid own)
              (λ u after q. (q.0, pin_moved o w known mid after same (q.1.pins o.cid) p))
              (λ e after q. tt))
          (λ e after q. tt)

    -- A rollback with a token that the record does not carry touches nothing, whether it returns or
    -- throws. Any other one that returns has put back the record that the upload replaced, but for
    -- its revision, or removed the one that it created; the pin is gone where the upload created it
    -- and the replaced record claimed none, and is else as it was. The replaced record is of the
    -- same CID, and the callback that removes the pin is taken to have removed it when it returns.
    pub rollback_upload-Post :
        (w : h.World)
        → Post
            (λ d after. Adopted o w after ⊎ (Owned o w × Reverted o w after))
            (λ e after. Same h v w after ⊎ Owned o w)
            (rollback_upload h o w)
    unfolding rollback_upload
    rollback_upload-Post w =
        if-Post (is_some o.admission_id)
          (λ t.
            and_then-Post _ (get-Post h v laws o.cid w)
              (λ current known q.
                if-Post (same_token (token_of current) o.admission_id)
                  (λ e. owned w known (q.1.same_pin o.cid) (
                    inr (
                      subst (λ c. token_of c ≡ o.admission_id) q.0
                        ((same_token_iff (token_of current) o.admission_id).0 e))))
                  (λ e. on_ok (
                    inl (
                      (λ n. cc (t, ap (λ (x : Option Text). is_some x) n)),
                      (λ x. cc (
                        e,
                        (same_token_iff (token_of current) o.admission_id).1
                            (subst (λ c. token_of c ≡ o.admission_id) (sym q.0) x),
                      )),
                      q.1,
                    ))))
              (λ e known s. inl s))
          (λ t. owned w w refl (inl (ground (arith, t))))
      where
        owned :
            (w known : h.World)
            → v.pin_at known o.cid ≡ v.pin_at w o.cid
            → Owned o w
            → Post
                (λ d after. Adopted o w after ⊎ (Owned o w × Reverted o w after))
                (λ e after. Same h v w after ⊎ Owned o w)
                (undo_upload h o known)
        owned w known same q =
            weaken-Post (undo_upload-Post w known same) (λ d after r. inr (q, r))
              (λ e after r. inr q)
