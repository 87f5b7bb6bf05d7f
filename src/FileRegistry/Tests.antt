-- ===== src/FileRegistry/Tests.antt =====
-- Reading back what was written, at a concrete host.
use ipfs_node.Base.Texts.{text}
use ipfs_node.Base.{◌≡◌, refl, true, none, some, [], ◌∷◌, map}
use ipfs_node.Registry.{FileRecord, confirmed, is_file_record}
use ipfs_node.FileRegistry.{listed}
use ipfs_node.FileRegistry.Listing.{beside, done, entry_of, listed-entry_of}
use ipfs_node.Lifecycle.Model.{toy, toy_view, toy_laws}

abbrev stored : FileRecord
stored = record {
  cid = text "f";
  name = text "f";
  state = confirmed;
  created_at = 1;
  expires_at = none;
  confirmed_at = some 1;
  file_size = 5;
  stored_bytes = 5;
  protected_bytes = none;
  pinned = true;
  held_locally = true;
  replicas = [];
  admission_id = none;
  admission_settled_at = none;
  replica_stage = none;
  revision = none;
}

stored_valid : is_file_record stored ≡ true
unfolding is_file_record
stored_valid = refl

listed-entry_of_example :
    listed toy (map (entry_of toy toy_view toy_laws) (stored ∷ [])) ≡ stored ∷ []
listed-entry_of_example =
    listed-entry_of toy toy_view toy_laws (stored ∷ []) (beside stored_valid done)
