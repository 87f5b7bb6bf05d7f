-- ===== src/Lifecycle/Steps/Records.antt =====
-- What the registry calls of src/storage/registry.ts do to the record of a CID.
use mathlib.Core.Option
use ipfs_node.Base.Texts.{Text, text, text_eq, text_eq_iff}
use ipfs_node.Base.{
  Bool, true, ◌≡◌, ◌≢◌, ◌⊎◌, inl, inr, refl, sym, ap, subst, ◌∙◌, ◌&&◌, Option, none, some,
  if◌then◌else◌, arith,
}
use ipfs_node.Registry.{FileRecord, is_file_record}
use ipfs_node.Host.{Host, not_found, failure, done, ok, threw}
use ipfs_node.Host.Laws.{Post, on_ok, on_threw, HostView, HostLaws, Same}
use ipfs_node.FileRegistry.{key, decode_record, decoded, get, stamped, write, save, remove_record}
use ipfs_node.Lifecycle.Steps.Rules.{and_then-Post, or_else-Post, weaken-Post, if-Post, absent-Post}

-- A record without its revision.
abbrev pub content : FileRecord → FileRecord
content r = record r { revision = none }

module _ (h : Host) (v : HostView h) where
  -- The record that a read of the CID finds.
  unfoldable pub record_at : h.World → Text → Option FileRecord
  record_at w k = elim (v.value_at w (key k)) [ none ↦ none | some b ↦ decode_record h b k ]

  pub record_at-value :
      (w after : h.World) (k : Text)
      → v.value_at after (key k) ≡ v.value_at w (key k)
      → record_at after k ≡ record_at w k
  unfolding record_at
  record_at-value w after k e = ap (λ o. elim o [ none ↦ none | some b ↦ decode_record h b k ]) e

  when_some :
      (t : Bool) (r s : FileRecord) → (if t then some r else none) ≡ some s → (t ≡ true) × (r ≡ s)
  when_some t r s e = ground (arith, e)

  -- A read answers only with a valid record of the CID.
  pub record_at-valid :
      (w : h.World) (k : Text) (r : FileRecord)
      → record_at w k ≡ some r
      → (is_file_record r ≡ true) × (r.cid ≡ k)
  unfolding record_at decode_record
  record_at-valid w k r e = go (v.value_at w (key k)) e
    where
      both :
          (a : Bool) (s : FileRecord)
          → (a && text_eq s.cid k) ≡ true
          → s ≡ r
          → a ≡ is_file_record s
          → (is_file_record r ≡ true) × (r.cid ≡ k)
      both a s t same own = (
        sym (ap is_file_record same) ∙ sym own ∙ ground (arith, t),
        sym (ap (λ (q : FileRecord). q.cid) same) ∙ (text_eq_iff s.cid k).0 (ground (arith, t)),
      )

      within :
          (o : Option FileRecord)
          → elim o [
            | none ↦ none
            | some s ↦ if is_file_record s && text_eq s.cid k then some s else none
          ]
            ≡ some r
          → (is_file_record r ≡ true) × (r.cid ≡ k)
      within none x = cc
      within (some s) x =
          let (t, same) = when_some (is_file_record s && text_eq s.cid k) s r x in
          both (is_file_record s) s t same refl

      go :
          (o : Option h.Bytes)
          → elim o [ none ↦ none | some b ↦ decode_record h b k ] ≡ some r
          → (is_file_record r ≡ true) × (r.cid ≡ k)
      go none x = cc
      go (some b) x = within (h.decode b) x

  pub record_at-cid : (w : h.World) (k : Text) (r : FileRecord) → record_at w k ≡ some r → r.cid ≡ k
  record_at-cid w k r e = (record_at-valid w k r e).1

  pub Same-trans : {a b c : h.World} → Same h v a b → Same h v b c → Same h v a c
  Same-trans p q = record {
    same_value = λ k. q.same_value k ∙ p.same_value k;
    same_pin = λ k. q.same_pin k ∙ p.same_pin k;
  }

  module _ (laws : HostLaws h v) where
    decoded-Post :
        (k : Text) (b : h.Bytes) (w : h.World)
        → Post
            (λ o after. (o ≡ decode_record h b k) × (after ≡ w))
            (λ e after. (e ≢ not_found) × (after ≡ w))
            (decoded h k b w)
    unfolding decoded
    decoded-Post k b w = go (decode_record h b k)
      where
        go :
            (o : Option FileRecord)
            → Post
                (λ p after. (p ≡ o) × (after ≡ w))
                (λ e after. (e ≢ not_found) × (after ≡ w))
                (elim o [
                  | none ↦ (w, threw (failure (text "Invalid lifecycle registry record")))
                  | some r ↦ (w, ok (some r))
                ])
        go none = on_threw ((λ x. cc), refl)
        go (some r) = on_ok (refl, refl)

    pub get-Post :
        (k : Text) (w : h.World)
        → Post
            (λ o after. (o ≡ record_at w k) × Same h v w after)
            (λ e after. Same h v w after)
            (get h k w)
    unfolding get record_at
    get-Post k w =
        or_else-Post _
          (and_then-Post (decoded h k) (laws.get_lem (key k) w)
            (λ b after q. read k w b after q.0 q.1) (λ e after q. q))
          (λ o after q. q)
          (λ e after q.
            absent-Post e after none
              (λ x. (
                sym (ap (λ o. elim o [ none ↦ none | some b ↦ decode_record h b k ]) (q.0 x)),
                q.1,
              ))
              q.1)
      where
        read :
            (j : Text) (start : h.World) (b : h.Bytes) (after : h.World)
            → v.value_at start (key j) ≡ some b
            → Same h v start after
            → Post
                (λ o later. (o ≡ record_at start j) × Same h v start later)
                (λ e later.
                  (e ≡ not_found → v.value_at start (key j) ≡ none) × Same h v start later)
                (decoded h j b after)
        read j start b after e s =
            weaken-Post (decoded-Post j b after)
              (λ o later q. (
                q.0 ∙ sym (ap (λ x. elim x [ none ↦ none | some c ↦ decode_record h c j ]) e),
                subst (Same h v start) (sym q.1) s,
              ))
              (λ x later q. (λ n. absurd (q.0 n), subst (Same h v start) (sym q.1) s))

    record_at-written :
        (after : h.World) (r : FileRecord)
        → is_file_record r ≡ true
        → v.value_at after (key r.cid) ≡ some (h.encode r)
        → record_at after r.cid ≡ some r
    unfolding record_at decode_record
    record_at-written after r valid e =
        ap (λ o. elim o [ none ↦ none | some b ↦ decode_record h b r.cid ]) e
        ∙ ap
            (λ (o : Option FileRecord). elim o [
              | none ↦ none
              | some s ↦ if is_file_record s && text_eq s.cid r.cid then some s else none
            ])
            (laws.decode_encode r)
        ∙ own r valid
      where
        own :
            (s : FileRecord)
            → is_file_record s ≡ true
            → (if is_file_record s && text_eq s.cid s.cid then some s else none) ≡ some s
        own s t = ground (arith, t, text_eq_iff s.cid s.cid)

    pub record SamePins (w after : h.World) : Type 0 where
      pub pins : (j : Text) → v.pin_at after j ≡ v.pin_at w j

    -- The record is the one given, but for its revision; or the write has not happened.
    abbrev pub Written : FileRecord → h.World → h.World → Type 0
    Written r w after =
        (Option.map content (record_at after r.cid) ≡ some (content r))
        ⊎ (record_at after r.cid ≡ record_at w r.cid)

    write-Post :
        (r : FileRecord) (w : h.World)
        → Post
            (λ s after. (record_at after r.cid ≡ some r) × (s ≡ r) × SamePins w after)
            (λ e after. Written r w after × SamePins w after)
            (write h r w)
    unfolding write
    write-Post r w =
        if-Post (is_file_record r)
          (λ e.
            and_then-Post (λ u after. (after, ok r)) (laws.put_lem (key r.cid) (h.encode r) w)
              (λ u after q.
                on_ok (record_at-written after r e q.0, refl, record { pins = q.1.same_pin }))
              (λ x after q. (
                elim q.0 [
                  | inl n ↦ inl (ap (Option.map content) (record_at-written after r e n))
                  | inr n ↦ inr (record_at-value w after r.cid n)
                ],
                record { pins = q.1.same_pin },
              )))
          (λ e. on_threw (inr refl, record { pins = λ j. refl }))

    pub save-outcome :
        (r : FileRecord) (w : h.World)
        → Post
            (λ s after.
              (record_at after r.cid ≡ some s) × (content s ≡ content r) × SamePins w after)
            (λ e after. Written r w after × SamePins w after)
            (save h r w)
    unfolding save stamped
    save-outcome r w =
        let (after, id) = h.random_uuid w in
        let before = laws.uuid_lem w in
        weaken-Post (write-Post (stamped h r id) after)
          (λ s later q. (
            q.0 ∙ ap (λ (x : FileRecord). some x) (sym q.1),
            ap content q.1,
            record { pins = λ j. q.2.pins j ∙ before.same_pin j },
          ))
          (λ e later q. (
            elim q.0 [
              | inl n ↦ inl n
              | inr n ↦ inr (n ∙ record_at-value w after r.cid (before.same_value (key r.cid)))
            ],
            record { pins = λ j. q.1.pins j ∙ before.same_pin j },
          ))

    pub save-Post :
        (r : FileRecord) (w : h.World)
        → Post
            (λ s after.
              (record_at after r.cid ≡ some s) × (content s ≡ content r) × SamePins w after)
            (λ e after. SamePins w after)
            (save h r w)
    save-Post r w = weaken-Post (save-outcome r w) (λ s after q. q) (λ e after q. q.1)

    -- The record is gone, or the deletion has not happened.
    pub remove_record-outcome :
        (k : Text) (w : h.World)
        → Post
            (λ u after. (record_at after k ≡ none) × SamePins w after)
            (λ e after.
              ((record_at after k ≡ none) ⊎ (record_at after k ≡ record_at w k)) × SamePins w after)
            (remove_record h k w)
    unfolding remove_record record_at
    remove_record-outcome k w =
        or_else-Post _ (laws.delete_lem (key k) w)
          (λ u after q. (gone after q.0, record { pins = q.1.same_pin }))
          (λ e after q.
            absent-Post e after done (λ x. (gone after (q.0 x), record { pins = q.2.same_pin }))
              (
                elim q.1 [ inl n ↦ inl (gone after n) | inr n ↦ inr (record_at-value w after k n) ],
                record { pins = q.2.same_pin },
              ))
      where
        gone : (after : h.World) → v.value_at after (key k) ≡ none → record_at after k ≡ none
        gone after e = ap (λ o. elim o [ none ↦ none | some b ↦ decode_record h b k ]) e

    pub remove_record-Post :
        (k : Text) (w : h.World)
        → Post
            (λ u after. (record_at after k ≡ none) × SamePins w after)
            (λ e after. SamePins w after)
            (remove_record h k w)
    remove_record-Post k w =
        weaken-Post (remove_record-outcome k w) (λ u after q. q) (λ e after q. q.1)
