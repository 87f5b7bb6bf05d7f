-- ===== src/Host/Laws.antt =====
-- What the lifecycle code relies on: the documented behaviour of the calls, failures included. A write
-- of the datastore is atomic: one that fails has been persisted or has not. A pin that is there is not
-- lost by a call that adds one. A read changes nothing.
use ipfs_node.Base.Texts.{Text}
use ipfs_node.Base.{Bool, true, false, ◌≡◌, ◌≢◌, ◌⊎◌, Option, none, some}
use ipfs_node.Registry.{FileRecord}
use ipfs_node.Host.{Host, Error, not_found, already_pinned, Result, ok, threw}

-- A statement on what a call returned, and one on what it threw.
pub data Post {ℓ κ μ} {W : Type ℓ} {A : Type κ} (Q : A → W → Type μ) (E : Error → W → Type μ)
    : W × Result A → Type (ℓ ⊔ κ ⊔ μ) where
  on_ok : {a : A} {w : W} → Q a w → Post Q E (w, ok a)
  on_threw : {e : Error} {w : W} → E e w → Post Q E (w, threw e)

-- Two views of a world: the value stored under a key, and whether a CID carries a direct pin.
pub record HostView (h : Host) : Type 1 where
  pub value_at : h.World → Text → Option h.Bytes
  pub pin_at : h.World → Text → Bool

module _ (h : Host) (v : HostView h) where
  pub record Same (w after : h.World) : Type 0 where
    pub same_value : (k : Text) → v.value_at after k ≡ v.value_at w k
    pub same_pin : (k : Text) → v.pin_at after k ≡ v.pin_at w k

  -- Only the value under `k` may differ.
  pub record Wrote (k : Text) (w after : h.World) : Type 0 where
    pub other_value : (j : Text) → j ≢ k → v.value_at after j ≡ v.value_at w j
    pub same_pin : (j : Text) → v.pin_at after j ≡ v.pin_at w j

  -- Only the pin of `k` may differ.
  pub record Pinned (k : Text) (w after : h.World) : Type 0 where
    pub same_value : (j : Text) → v.value_at after j ≡ v.value_at w j
    pub other_pin : (j : Text) → j ≢ k → v.pin_at after j ≡ v.pin_at w j

pub record HostLaws (h : Host) (v : HostView h) : Type 0 where
  pub get_lem :
      (k : Text) (w : h.World)
      → Post
          (λ b after. (v.value_at w k ≡ some b) × Same h v w after)
          (λ e after. (e ≡ not_found → v.value_at w k ≡ none) × Same h v w after)
          (h.datastore_get k w)
  pub put_lem :
      (k : Text) (b : h.Bytes) (w : h.World)
      → Post
          (λ u after. (v.value_at after k ≡ some b) × Wrote h v k w after)
          (λ e after.
            ((v.value_at after k ≡ some b) ⊎ (v.value_at after k ≡ v.value_at w k))
            × Wrote h v k w after)
          (h.datastore_put k b w)
  pub delete_lem :
      (k : Text) (w : h.World)
      → Post
          (λ u after. (v.value_at after k ≡ none) × Wrote h v k w after)
          (λ e after.
            (e ≡ not_found → v.value_at after k ≡ none)
            × ((v.value_at after k ≡ none) ⊎ (v.value_at after k ≡ v.value_at w k))
            × Wrote h v k w after)
          (h.datastore_delete k w)
  pub add_lem :
      (k : Text) (w : h.World)
      → Post
          (λ u after. (v.pin_at w k ≡ false) × (v.pin_at after k ≡ true) × Pinned h v k w after)
          (λ e after.
            (e ≡ already_pinned → v.pin_at after k ≡ true)
            × (v.pin_at w k ≡ true → v.pin_at after k ≡ true)
            × Pinned h v k w after)
          (h.pins_add k w)
  pub rm_lem :
      (k : Text) (w : h.World)
      → Post
          (λ u after. (v.pin_at after k ≡ false) × Pinned h v k w after)
          (λ e after. (e ≡ not_found → v.pin_at after k ≡ false) × Pinned h v k w after)
          (h.pins_rm k w)
  pub pins_get_lem :
      (k : Text) (w : h.World)
      → Post
          (λ u after. (v.pin_at w k ≡ true) × Same h v w after)
          (λ e after. (e ≡ not_found → v.pin_at w k ≡ false) × Same h v w after)
          (h.pins_get k w)
  pub stat_lem :
      (k : Text) (w : h.World)
      → Post (λ s after. Same h v w after) (λ e after. Same h v w after) (h.stat k w)
  pub uuid_lem : (w : h.World) → Same h v w (h.random_uuid w).0
  pub decode_encode : (r : FileRecord) → h.decode (h.encode r) ≡ some r
