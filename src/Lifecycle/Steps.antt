-- ===== src/Lifecycle/Steps.antt =====
-- What each call of a transition does to the record and the pin of a CID (src/storage/registry.ts,
-- src/storage/pinning.ts).
mod Rules
mod Records
use mathlib.Core.Option
use ipfs_node.Base.Texts.{Text, text, text_eq, text_eq_iff}
use ipfs_node.Base.{
  Bool, true, false, ◌≡◌, ◌≢◌, ◌⊎◌, inl, inr, refl, sym, ap, subst, ◌∙◌, ◌&&◌, Option, none, some,
  if◌then◌else◌, arith,
}
use ipfs_node.Registry.{FileRecord, is_file_record}
use ipfs_node.Host.{
  is_not_found, is_already_pinned, Host, Error, not_found, already_pinned, failure, busy, aggregate,
  aggregate_one, aggregate_two, Result, done, ok, threw, and_then, or_else,
}
use ipfs_node.Host.Laws.{Post, on_ok, on_threw, HostView, HostLaws, Same, Pinned}
use ipfs_node.FileRegistry.{key, decode_record, decoded, get, stamped, write, save, remove_record}
use ipfs_node.Lifecycle.{pin_file, unpin_file, is_directly_pinned, was_pinned}
pub use Rules.{and_then-Post, or_else-Post, ending-Post, weaken-Post, if-Post}
unfoldable pub use Records.{record_at}
pub use Records.{
  content, record_at-value, record_at-valid, record_at-cid, Same-trans, get-Post, SamePins, Written,
  save-outcome, save-Post, remove_record-outcome, remove_record-Post,
}
use ipfs_node.Lifecycle.Steps.Rules.{absent-Post, present-Post}

module _ (h : Host) (v : HostView h) where
  module _ (laws : HostLaws h v) where
    pub record SameRecords (w after : h.World) : Type 0 where
      pub records : (j : Text) → record_at h v after j ≡ record_at h v w j

    kept_by : (k : Text) (w after : h.World) → Pinned h v k w after → SameRecords w after
    kept_by k w after q = record {
      records = λ j. record_at-value h v w after j (q.same_value (key j));
    }

    pub reads_alike : (w after : h.World) → Same h v w after → SameRecords w after
    reads_alike w after q = record {
      records = λ j. record_at-value h v w after j (q.same_value (key j));
    }

    -- An answer `true` means that the pin was not there before.
    pub pin_file-created :
        (timed : Bool) (k : Text) (w : h.World)
        → Post
            (λ b after.
              (b ≡ true → v.pin_at w k ≡ false) × (v.pin_at after k ≡ true) × SameRecords w after)
            (λ e after. (v.pin_at w k ≡ true → v.pin_at after k ≡ true) × SameRecords w after)
            (pin_file h timed k w)
    unfolding pin_file
    pin_file-created timed k w =
        if-Post (timed && h.is_aborted w) (λ e. on_threw ((λ x. x), record { records = λ j. refl }))
          (λ e.
            or_else-Post
              {E = λ x after.
                (x ≡ already_pinned → v.pin_at after k ≡ true)
                × (v.pin_at w k ≡ true → v.pin_at after k ≡ true)
                × SameRecords w after}
              _
              (and_then-Post (λ u after. (after, ok true)) (laws.add_lem k w)
                (λ u after q. on_ok ((λ x. q.0), q.1, kept_by k w after q.2))
                (λ x after q. (q.0, q.1, kept_by k w after q.2)))
              (λ b after q. q)
              (λ x after q. present-Post x after false (λ a. ((λ y. cc), q.0 a, q.2)) (q.1, q.2)))

    pub pin_file-Post :
        (timed : Bool) (k : Text) (w : h.World)
        → Post
            (λ b after. (v.pin_at after k ≡ true) × SameRecords w after)
            (λ e after. SameRecords w after)
            (pin_file h timed k w)
    pin_file-Post timed k w =
        weaken-Post (pin_file-created timed k w) (λ b after q. (q.1, q.2)) (λ x after q. q.1)

    pub unpin_file-Post :
        (k : Text) (w : h.World)
        → Post
            (λ b after. (v.pin_at after k ≡ false) × SameRecords w after)
            (λ e after. SameRecords w after)
            (unpin_file h k w)
    unfolding unpin_file
    unpin_file-Post k w =
        or_else-Post
          {E = λ x after. (x ≡ not_found → v.pin_at after k ≡ false) × SameRecords w after} _
          (and_then-Post (λ u after. (after, ok true)) (laws.rm_lem k w)
            (λ u after q. on_ok (q.0, kept_by k w after q.1))
            (λ x after q. (q.0, kept_by k w after q.1)))
          (λ b after q. q) (λ x after q. absent-Post x after false (λ a. (q.0 a, q.1)) q.1)

    pub is_directly_pinned-Post :
        (k : Text) (w : h.World)
        → Post
            (λ b after. (b ≡ v.pin_at w k) × Same h v w after)
            (λ e after. Same h v w after)
            (is_directly_pinned h k w)
    unfolding is_directly_pinned
    is_directly_pinned-Post k w =
        or_else-Post _
          (and_then-Post (λ u after. (after, ok true)) (laws.pins_get_lem k w)
            (λ u after q. on_ok (sym q.0, q.1)) (λ x after q. q))
          (λ b after q. q) (λ x after q. absent-Post x after false (λ a. (sym (q.0 a), q.1)) q.1)

    pub was_pinned-Post :
        (claimed : Bool) (k : Text) (w : h.World)
        → Post
            (λ b after. (claimed ≡ true → b ≡ true) × Same h v w after)
            (λ e after. Same h v w after)
            (was_pinned h claimed k w)
    unfolding was_pinned
    was_pinned-Post claimed k w =
        if-Post claimed
          (λ e. on_ok ((λ x. refl), record { same_value = λ j. refl; same_pin = λ j. refl }))
          (λ e.
            weaken-Post (is_directly_pinned-Post k w) (λ b after q. ((λ x. cc), q.1))
              (λ x after q. q))
