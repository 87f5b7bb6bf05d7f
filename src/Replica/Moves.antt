-- ===== src/Replica/Moves.antt =====
-- What it is for a call of src/storage/replicaStage.ts to move a copy along the diagram.
use ipfs_node.Base.Texts.{Text}
use ipfs_node.Base.{◌≡◌, sym, ap, subst, ◌∙◌, ◌⊎◌, inl, inr, Option, some, true}
use ipfs_node.Registry.{FileRecord, is_file_record}
use ipfs_node.Host.{Host, Result, and_then}
use ipfs_node.Host.Laws.{Post, HostView, HostLaws}
use ipfs_node.FileRegistry.{get}
use ipfs_node.Lifecycle.Steps.{and_then-Post, weaken-Post, record_at-valid, get-Post, reads_alike}
use ipfs_node.Replica.Diagram.{Copy, copy_of}
use ipfs_node.Replica.Outcome.{copy_at, Among}

module _ (h : Host) (v : HostView h) where
  -- From `c`, a call that returns has made a move; one that throws has made one or none.
  abbrev pub Moves {ℓ} :
      {A : Type ℓ} → Text → (Copy → Copy → Type 0) → Copy → h.World × Result A → Type ℓ
  Moves k M c =
      Post (λ a after. M c (copy_at h v after k))
        (λ e after. M c (copy_at h v after k) ⊎ (copy_at h v after k ≡ c))

  pub moved {ℓ} :
      {A : Type ℓ} (M : Copy → Copy → Type 0) (k : Text) (c d : Copy) {m : h.World × Result A}
      → M c d
      → Post (λ a after. copy_at h v after k ≡ d) (λ e after. Among h v k c d after) m
      → Moves k M c m
  moved M k c d move post =
      weaken-Post post (λ a after e. subst (M c) (sym e) move)
        (λ x after q. elim q [ inl e ↦ inr e | inr e ↦ inl (subst (M c) (sym e) move) ])

  -- What a call knows of the record that it found.
  abbrev pub IsFound : Text → Option FileRecord → h.World → Type 0
  IsFound k found known =
      ((r : FileRecord) → found ≡ some r → (is_file_record r ≡ true) × (r.cid ≡ k))
      × (copy_at h v known k ≡ copy_of found)

  module _ (laws : HostLaws h v) where
    -- A call that starts with a read of the record.
    pub after_get {ℓ} :
        {A : Type ℓ} (M : Copy → Copy → Type 0) (k : Text)
        (f : Option FileRecord → h.World → h.World × Result A) (w : h.World)
        → ((found : Option FileRecord) (known : h.World)
            → IsFound k found known
            → Moves k M (copy_of found) (f found known))
        → Moves k M (copy_at h v w k) (and_then (get h k w) f)
    after_get M k f w each =
        and_then-Post f (get-Post h v laws k w)
          (λ found known q.
            subst (λ c. Moves k M c (f found known)) (ap copy_of q.0)
              (each found known (
                (λ r e. record_at-valid h v w k r (sym q.0 ∙ e)),
                ap copy_of ((reads_alike h v laws w known q.1).records k ∙ sym q.0),
              )))
          (λ e known s. inr (ap copy_of ((reads_alike h v laws w known s).records k)))
