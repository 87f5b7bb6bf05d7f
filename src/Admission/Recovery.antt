-- ===== src/Admission/Recovery.antt =====
-- About `recoverInterruptedAdmissions` (src/storage/admission.ts), one CID at a time.
use mathlib.Core.Option
use ipfs_node.Base.Texts.{Text}
use ipfs_node.Base.{Bool, true, false, ◌≡◌, sym, ap, subst, ◌∙◌, Option, none, some, arith}
use ipfs_node.Registry.{FileRecord, Process, is_admission_settled, is_active_admission}
use ipfs_node.Host.{Host}
use ipfs_node.Host.Laws.{Post, on_ok, HostView, HostLaws, Same}
use ipfs_node.Admission.{is_interrupted, without_token, recover_found, recover_one}
use ipfs_node.Lifecycle.Steps.{
  and_then-Post, if-Post, content, record_at, record_at-cid, get-Post, save-Post,
}

module _ (h : Host) (v : HostView h) where
  -- What recovery leaves behind for a CID, by its answer.
  abbrev pub Recovered : Process → Text → h.World → Bool → h.World → Type 0
  Recovered p k w false after = Same h v w after
  Recovered p k w true after =
      (r : FileRecord) × (record_at h v w k ≡ some r)
      × (is_admission_settled r ≡ false)
      × (is_active_admission p r.admission_id ≡ false)
      × (Option.map content (record_at h v after k) ≡ some (content (without_token r)))

  interrupted_parts :
      (p : Process) (r : FileRecord)
      → is_interrupted p r ≡ true
      → (is_admission_settled r ≡ false) × (is_active_admission p r.admission_id ≡ false)
  unfolding is_interrupted
  interrupted_parts p r e = ground (arith, e)

  module _ (laws : HostLaws h v) where
    recover_found-Post :
        (p : Process) (k : Text) (o : Option FileRecord) (w known : h.World)
        → Same h v w known
        → o ≡ record_at h v w k
        → Post
            (λ b after. Recovered p k w b after × ((j : Text) → v.pin_at after j ≡ v.pin_at w j))
            (λ e after. (j : Text) → v.pin_at after j ≡ v.pin_at w j)
            (recover_found h p o known)
    unfolding recover_found
    recover_found-Post p k none w known s e = on_ok (s, s.same_pin)
    recover_found-Post p k (some r) w known s e =
        if-Post (is_interrupted p r)
          (λ t.
            let (unsettled, inactive) = interrupted_parts p r t in
            and_then-Post _ (save-Post h v laws (without_token r) known)
              (λ stored after q. on_ok (
                (
                  r,
                  sym e,
                  unsettled,
                  inactive,
                  ap (Option.map content) (
                        subst (λ c. record_at h v after c ≡ some stored)
                          (record_at-cid h v w k r (sym e)) q.0)
                      ∙ ap (λ (x : FileRecord). some x) q.1,
                ),
                λ j. q.2.pins j ∙ s.same_pin j,
              ))
              (λ x after q. λ j. q.pins j ∙ s.same_pin j))
          (λ t. on_ok (s, s.same_pin))

    -- Recovery of a CID either answers false and changes nothing; or answers true, and then the record
    -- had a token that was not settled and whose request no longer runs, and differs from before only
    -- in the token and the revision. Whatever happens, no pin changes.
    pub recover_one-Post :
        (p : Process) (k : Text) (w : h.World)
        → Post
            (λ b after. Recovered p k w b after × ((j : Text) → v.pin_at after j ≡ v.pin_at w j))
            (λ e after. (j : Text) → v.pin_at after j ≡ v.pin_at w j)
            (recover_one h p k w)
    unfolding recover_one
    recover_one-Post p k w =
        and_then-Post _ (get-Post h v laws k w)
          (λ o known q. recover_found-Post p k o w known q.1 q.0) (λ e known s. s.same_pin)
