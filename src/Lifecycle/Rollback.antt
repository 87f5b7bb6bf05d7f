-- ===== src/Lifecycle/Rollback.antt =====
-- About `restoreLifecycleBaseline` (src/storage/lifecycle.ts).
use mathlib.Core.Option
use ipfs_node.Base.Texts.{Text}
use ipfs_node.Base.{
  Bool, true, false, ◌≡◌, refl, sym, ap, subst, ◌∙◌, ◌⊎◌, inl, inr, Option, none, some,
}
use ipfs_node.Registry.{FileRecord}
use ipfs_node.Host.{Host, Error, Result, Done, done, ok, aggregate, aggregate_one, aggregate_two}
use ipfs_node.Host.Laws.{Post, on_ok, on_threw, HostView, HostLaws}
use ipfs_node.Lifecycle.{
  restore_lifecycle_baseline, restore_pin, restore_record, rollback_error, error_of, claims_pin,
}
use ipfs_node.Lifecycle.Steps.{
  and_then-Post, weaken-Post, content, record_at, record_at-cid, save-Post, remove_record-Post,
  SamePins, SameRecords, pin_file-Post, unpin_file-Post,
}

-- `AggregateError`: the rollback is incomplete, and the error says so.
abbrev pub is_aggregate : Error → Bool
is_aggregate (aggregate a) = true
is_aggregate (aggregate_one a b) = true
is_aggregate (aggregate_two a b c) = true
is_aggregate _ = false

module _ (h : Host) (v : HostView h) where
  -- A record that claims a pin has one.
  abbrev pub Protected : Text → h.World → Type 0
  Protected k w = claims_pin (record_at h v w k) ≡ true → v.pin_at w k ≡ true

  -- The record is as it was, but for the revision that every write renews.
  abbrev pub Restored : Text → h.World → h.World → Type 0
  Restored k w after =
      Option.map content (record_at h v after k) ≡ Option.map content (record_at h v w k)

  -- What a transition that threw leaves behind.
  abbrev pub Undone : Text → h.World → Error → h.World → Type 0
  Undone k w e after = (is_aggregate e ≡ true) ⊎ (Restored k w after × Protected k after)

  pub claims-content :
      (o p : Option FileRecord)
      → Option.map content o ≡ Option.map content p
      → claims_pin o ≡ claims_pin p
  claims-content none none e = refl
  claims-content none (some p) e = cc
  claims-content (some o) none e = cc
  claims-content (some o) (some p) e = cc

  module _ (laws : HostLaws h v) where
    restore_pin-Post :
        (timed was : Bool) (k : Text) (w : h.World)
        → Post
            (λ b after. (v.pin_at after k ≡ was) × SameRecords h v laws w after)
            (λ e after. SameRecords h v laws w after)
            (restore_pin h timed was k w)
    unfolding restore_pin
    restore_pin-Post timed true k w = pin_file-Post h v laws timed k w
    restore_pin-Post timed false k w = unpin_file-Post h v laws k w

    pub restore_record-Post :
        (k : Text) (previous : Option FileRecord) (w : h.World)
        → ((r : FileRecord) → previous ≡ some r → r.cid ≡ k)
        → Post
            (λ u after.
              (Option.map content (record_at h v after k) ≡ Option.map content previous)
              × SamePins h v laws w after)
            (λ e after. SamePins h v laws w after)
            (restore_record h k previous w)
    unfolding restore_record
    restore_record-Post k none w same =
        weaken-Post (remove_record-Post h v laws k w)
          (λ u after q. (ap (Option.map content) q.0, q.1)) (λ e after q. q)
    restore_record-Post k (some r) w same =
        and_then-Post (λ s after. (after, ok done)) (save-Post h v laws r w)
          (λ s after q. on_ok (
            ap (Option.map content) (subst (λ c. record_at h v after c ≡ some s) (same r refl) q.0)
                ∙ ap (λ (x : FileRecord). some x) q.1,
            q.2,
          ))
          (λ e after q. q)

    -- Both steps succeeded, or the error is an aggregate.
    pub after_second :
        (k : Text) (w mid : h.World) (original : Error) (previous : Option FileRecord)
        → previous ≡ record_at h v w k
        → (first : Option Error)
        → (first ≡ none → claims_pin previous ≡ true → v.pin_at mid k ≡ true)
        → {s : h.World × Result Done}
        → Post
            (λ u after.
              (Option.map content (record_at h v after k) ≡ Option.map content previous)
              × SamePins h v laws mid after)
            (λ e after. SamePins h v laws mid after)
            s
        → Undone k w (rollback_error original first (error_of s.1)) s.0
    unfolding rollback_error error_of
    after_second k w mid original previous same none pinned (on_ok q) = inr (
      q.0 ∙ ap (Option.map content) same,
      λ x. q.1.pins k ∙ pinned refl (sym (claims-content _ previous q.0) ∙ x),
    )
    after_second k w mid original previous same none pinned (on_threw q) = inl refl
    after_second k w mid original previous same (some e) pinned (on_ok q) = inl refl
    after_second k w mid original previous same (some e) pinned (on_threw q) = inl refl

    no_error :
        (k : Text) (was : Bool) (w : h.World) {m : h.World × Result Bool}
        → Post
            (λ b after. (v.pin_at after k ≡ was) × SameRecords h v laws w after)
            (λ e after. SameRecords h v laws w after)
            m
        → error_of m.1 ≡ none
        → v.pin_at m.0 k ≡ was
    unfolding error_of
    no_error k was w (on_ok q) e = q.0
    no_error k was w (on_threw q) e = cc

    undone_lem :
        (timed : Bool) (k : Text) (w mid : h.World) (was : Bool) (original : Error)
        (previous : Option FileRecord)
        → (claims_pin previous ≡ true → was ≡ true)
        → previous ≡ record_at h v w k
        → Undone k w
            (rollback_error original
              (error_of (restore_pin h timed was k mid).1)
              (error_of (restore_record h k previous (restore_pin h timed was k mid).0).1))
            (restore_record h k previous (restore_pin h timed was k mid).0).0
    undone_lem timed k w mid was original previous claims same =
        after_second k w (restore_pin h timed was k mid).0 original previous same _
          (λ n c. no_error k was mid (restore_pin-Post timed was k mid) n ∙ claims c)
          (restore_record-Post k previous _ (λ r e. record_at-cid h v w k r (sym same ∙ e)))

    pub restore_lifecycle_baseline-Post {ℓ} :
        {A : Type ℓ} (Q : A → h.World → Type 0) (timed : Bool) (k : Text) (w mid : h.World)
        (was : Bool) (original : Error) (previous : Option FileRecord)
        → (claims_pin previous ≡ true → was ≡ true)
        → previous ≡ record_at h v w k
        → Post Q (Undone k w) (restore_lifecycle_baseline h timed k previous was original mid)
    unfolding restore_lifecycle_baseline
    restore_lifecycle_baseline-Post Q timed k w mid was original previous claims same =
        on_threw (undone_lem timed k w mid was original previous claims same)
