-- ===== src/Lifecycle/Frame.antt =====
-- What a call on one CID leaves alone: the record and the pin of every other CID
-- (src/storage/registry.ts, src/storage/pinning.ts).
use ipfs_node.Base.Texts.{Text}
use ipfs_node.Base.{Bool, ◌≡◌, ◌≢◌, refl, sym, ap, ◌∙◌, [], ◌∷◌, ◌++◌, ◌&&◌}
use ipfs_node.Registry.{FileRecord, is_file_record}
use ipfs_node.Host.{is_not_found, is_already_pinned, Host, Error, Result, and_then, or_else}
use ipfs_node.Host.Laws.{Post, on_ok, on_threw, HostView, HostLaws, Same, Wrote, Pinned}
use ipfs_node.FileRegistry.{key, registry_prefix, get, stamped, write, save, remove_record}
use ipfs_node.Lifecycle.{pin_file, unpin_file}
use ipfs_node.Lifecycle.Steps.{
  and_then-Post, or_else-Post, weaken-Post, if-Post, record_at, record_at-value, get-Post,
}

rest : Text → Text
rest [] = []
rest (c ∷ cs) = cs

key_injective : (j k : Text) → key j ≡ key k → j ≡ k
unfolding key rest
key_injective j k e = ap rest (go registry_prefix (47 ∷ j) (47 ∷ k) e)
  where
    go : (p a b : Text) → p ++ a ≡ p ++ b → a ≡ b
    go [] a b x = x
    go (c ∷ p) a b x = go p a b (ap rest x)

module _ (h : Host) (v : HostView h) (k : Text) where
  pub record Keeps (w after : h.World) : Type 0 where
    pub kept_record : record_at h v after k ≡ record_at h v w k
    pub kept_pin : v.pin_at after k ≡ v.pin_at w k

  pub unchanged : (w : h.World) → Keeps w w
  unchanged w = record { kept_record = refl; kept_pin = refl }

  pub in_turn : {a b c : h.World} → Keeps a b → Keeps b c → Keeps a c
  in_turn p q = record {
    kept_record = q.kept_record ∙ p.kept_record;
    kept_pin = q.kept_pin ∙ p.kept_pin;
  }

  -- However the call ends, the CID is as before.
  abbrev pub Stays {ℓ} : {A : Type ℓ} → h.World → h.World × Result A → Type ℓ
  Stays w = Post (λ a after. Keeps w after) (λ e after. Keeps w after)

  pub Stays-and_then {ℓ κ} :
      {A : Type ℓ} {B : Type κ} {w : h.World} {m : h.World × Result A}
      (f : A → h.World → h.World × Result B)
      → Stays w m
      → ((a : A) (after : h.World) → Stays after (f a after))
      → Stays w (and_then m f)
  Stays-and_then f p q =
      and_then-Post f p
        (λ a after s. weaken-Post (q a after) (λ b final t. in_turn s t) (λ e final t. in_turn s t))
        (λ e after s. s)

  pub Stays-or_else {ℓ} :
      {A : Type ℓ} {w : h.World} {m : h.World × Result A} (f : Error → h.World → h.World × Result A)
      → Stays w m
      → ((e : Error) (after : h.World) → Stays after (f e after))
      → Stays w (or_else m f)
  Stays-or_else f p q =
      or_else-Post f p (λ a after s. s)
        (λ e after s. weaken-Post (q e after) (λ b final t. in_turn s t) (λ x final t. in_turn s t))

  pub world_left {ℓ} : {A : Type ℓ} {w : h.World} {m : h.World × Result A} → Stays w m → Keeps w m.0
  world_left (on_ok q) = q
  world_left (on_threw q) = q

  pub read_as_before : {w after : h.World} → Same h v w after → Keeps w after
  read_as_before {w} {after} s = record {
    kept_record = record_at-value h v w after k (s.same_value (key k));
    kept_pin = s.same_pin k;
  }

  pub read-Stays {ℓ κ} :
      {A : Type ℓ} {P : A → h.World → Type κ} {E : Error → h.World → Type κ} {w : h.World}
      {m : h.World × Result A}
      → ((a : A) (after : h.World) → P a after → Same h v w after)
      → ((e : Error) (after : h.World) → E e after → Same h v w after)
      → Post P E m
      → Stays w m
  read-Stays f g p =
      weaken-Post p (λ a after q. read_as_before (f a after q))
        (λ e after q. read_as_before (g e after q))

  module _ (laws : HostLaws h v) where
    pub get-Stays : (j : Text) (w : h.World) → Stays w (get h j w)
    get-Stays j w = read-Stays (λ a after q. q.1) (λ e after q. q) (get-Post h v laws j w)

    module _ (j : Text) (apart : j ≢ k) where
      elsewhere_put : (w after : h.World) → Wrote h v (key j) w after → Keeps w after
      elsewhere_put w after q = record {
        kept_record =
            record_at-value h v w after k
              (q.other_value (key k) (λ e. apart (sym (key_injective k j e))));
        kept_pin = q.same_pin k;
      }

      elsewhere_pin : (w after : h.World) → Pinned h v j w after → Keeps w after
      elsewhere_pin w after q = record {
        kept_record = record_at-value h v w after k (q.same_value (key k));
        kept_pin = q.other_pin k (λ e. apart (sym e));
      }

      pub pin_file-Stays : (timed : Bool) (w : h.World) → Stays w (pin_file h timed j w)
      unfolding pin_file
      pin_file-Stays timed w =
          if-Post (timed && h.is_aborted w) (λ e. on_threw (unchanged w))
            (λ e.
              Stays-or_else _
                (Stays-and_then _
                  (weaken-Post (laws.add_lem j w) (λ u after q. elsewhere_pin w after q.2)
                    (λ x after q. elsewhere_pin w after q.2))
                  (λ u after. on_ok (unchanged after)))
                (λ x after.
                  if-Post (is_already_pinned x) (λ t. on_ok (unchanged after))
                    (λ t. on_threw (unchanged after))))

      pub unpin_file-Stays : (w : h.World) → Stays w (unpin_file h j w)
      unfolding unpin_file
      unpin_file-Stays w =
          Stays-or_else _
            (Stays-and_then _
              (weaken-Post (laws.rm_lem j w) (λ u after q. elsewhere_pin w after q.1)
                (λ x after q. elsewhere_pin w after q.1))
              (λ u after. on_ok (unchanged after)))
            (λ x after.
              if-Post (is_not_found x) (λ t. on_ok (unchanged after))
                (λ t. on_threw (unchanged after)))

      pub remove_record-Stays : (w : h.World) → Stays w (remove_record h j w)
      unfolding remove_record
      remove_record-Stays w =
          Stays-or_else _
            (weaken-Post (laws.delete_lem (key j) w) (λ u after q. elsewhere_put w after q.1)
              (λ x after q. elsewhere_put w after q.2))
            (λ x after.
              if-Post (is_not_found x) (λ t. on_ok (unchanged after))
                (λ t. on_threw (unchanged after)))

    write-Stays : (r : FileRecord) (w : h.World) → r.cid ≢ k → Stays w (write h r w)
    unfolding write
    write-Stays r w apart =
        if-Post (is_file_record r)
          (λ e.
            Stays-and_then _
              (weaken-Post (laws.put_lem (key r.cid) (h.encode r) w)
                (λ u after q. elsewhere_put r.cid apart w after q.1)
                (λ x after q. elsewhere_put r.cid apart w after q.1))
              (λ u after. on_ok (unchanged after)))
          (λ e. on_threw (unchanged w))

    pub save-Stays : (r : FileRecord) (w : h.World) → r.cid ≢ k → Stays w (save h r w)
    unfolding save stamped
    save-Stays r w apart =
        let (after, id) = h.random_uuid w in
        let before = read_as_before (laws.uuid_lem w) in
        weaken-Post (write-Stays (stamped h r id) after apart) (λ s final q. in_turn before q)
          (λ e final q. in_turn before q)
