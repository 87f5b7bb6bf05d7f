-- ===== src/FileRegistry/Listing.antt =====
-- About reading back what the registry has written (src/storage/registry.ts).
use ipfs_node.Base.Texts.{Text, text_eq, text_eq_iff}
use ipfs_node.Base.{
  true, ◌≡◌, refl, ap, ◌∙◌, ◌&&◌, Option, none, some, List, [], ◌∷◌, ◌++◌, map, if◌then◌else◌,
  arith,
}
use ipfs_node.Registry.{FileRecord, is_file_record}
use ipfs_node.Host.{Host, Result, ok, and_then}
use ipfs_node.Host.Laws.{Post, on_ok, HostView, HostLaws}
use ipfs_node.FileRegistry.{
  registry_prefix, key, strip, cid_of_key, decode_record, listed, get, save,
}
use ipfs_node.Lifecycle.Steps.{and_then-Post, content, get-Post, save-Post}

strip-append : (p t : Text) → strip p (p ++ t) ≡ t
unfolding strip
strip-append [] t = refl
strip-append (c ∷ cs) t = ground (arith, strip-append cs t)

cid_of_key-key : (cid : Text) → cid_of_key (key cid) ≡ cid
unfolding cid_of_key key
cid_of_key-key cid = strip-append (registry_prefix ++ 47 ∷ []) cid

pub data AllValid : List FileRecord → Type 0 where
  done : AllValid []
  beside :
      {r : FileRecord} {rs : List FileRecord}
      → is_file_record r ≡ true
      → AllValid rs
      → AllValid (r ∷ rs)

module _ (h : Host) (v : HostView h) (laws : HostLaws h v) where
  -- The entry that a write of the record leaves in the datastore.
  abbrev pub entry_of : FileRecord → Text × h.Bytes
  entry_of r = (key r.cid, h.encode r)

  decode_record-encode :
      (r : FileRecord) → is_file_record r ≡ true → decode_record h (h.encode r) r.cid ≡ some r
  unfolding decode_record
  decode_record-encode r valid =
      ap
        (λ (o : Option FileRecord). elim o [
          | none ↦ none
          | some s ↦ if is_file_record s && text_eq s.cid r.cid then some s else none
        ])
        (laws.decode_encode r)
      ∙ own r valid
    where
      own :
          (s : FileRecord)
          → is_file_record s ≡ true
          → (if is_file_record s && text_eq s.cid s.cid then some s else none) ≡ some s
      own s t = ground (arith, t, text_eq_iff s.cid s.cid)

  -- A listing of the entries of valid records is those records, in the order of the entries.
  pub listed-entry_of : (rs : List FileRecord) → AllValid rs → listed h (map entry_of rs) ≡ rs
  unfolding listed
  listed-entry_of [] done = refl
  listed-entry_of (r ∷ rs) (beside valid q) =
      ap
        (λ (o : Option FileRecord). elim o [
          | none ↦ listed h (map entry_of rs)
          | some s ↦ s ∷ listed h (map entry_of rs)
        ])
        (ap (decode_record h (h.encode r)) (cid_of_key-key r.cid) ∙ decode_record-encode r valid)
      ∙ ap (λ (l : List FileRecord). r ∷ l) (listed-entry_of rs q)

  -- A save, and then a read of the CID.
  unfoldable pub save_and_get :
      FileRecord → h.World → h.World × Result (FileRecord × Option FileRecord)
  save_and_get r w =
      and_then (save h r w)
        (λ s after. and_then (get h r.cid after) (λ o final. (final, ok (s, o))))

  -- A record that was saved is read back as it was answered, and has the content that was given, all
  -- but the revision.
  pub save-get :
      (r : FileRecord) (w : h.World)
      → Post
          (λ p after. (p.1 ≡ some p.0) × (content p.0 ≡ content r))
          (λ e after. Unit {0})
          (save_and_get r w)
  unfolding save_and_get
  save-get r w =
      and_then-Post _ (save-Post h v laws r w)
        (λ s after q.
          and_then-Post _ (get-Post h v laws r.cid after) (λ o final t. on_ok (t.0 ∙ q.0, q.1))
            (λ e final t. tt))
        (λ e after q. tt)
