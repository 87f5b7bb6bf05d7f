-- ===== src/FileRegistry.antt =====
-- The operations of `LockedFileRegistry` (src/storage/registry.ts), which run while the CID's lock is
-- held, over the datastore of a host.
pub mod Listing
mod Tests
use ipfs_node.Base.Texts.{Text, text, text_eq}
use ipfs_node.Base.{
  ℕ, ◌+◌, max, Bool, true, false, ◌&&◌, ◌||◌, not, Option, none, some, List, [], ◌∷◌, ◌==◌, ◌++◌,
  if◌then◌else◌, ltb, is_some, is_none, get_or,
}
use ipfs_node.Registry.{
  FileRecord, temporary, confirmed, Process, uuid, is_file_record, is_active_repair,
  is_active_admission, is_admission_settled, is_confirmed, protected_storage_bytes,
}
use ipfs_node.Host.{
  is_not_found, Host, failure, busy, Result, Done, done, ok, threw, and_then, or_else,
}

-- `REGISTRY_PREFIX`; the constructor's default.
abbrev pub registry_prefix : Text
registry_prefix = text "/adm/files"

unfoldable pub key : Text → Text
key cid = registry_prefix ++ 47 ∷ cid

pub record NewFileRecord : Type 0 where
  pub cid : Text
  pub name : Text
  pub file_size : ℕ
  pub stored_bytes : ℕ
  pub protected_bytes : Option ℕ

-- `now` is the caller's, or the clock's.
pub record RegisterFileOptions : Type 0 where
  pub confirmation_required : Bool
  pub temporary_ttl_ms : ℕ
  pub now : ℕ
  pub admission_id : Option Text

-- `record` is a keyword of the specification language, so the stored record is `stored`.
pub record Registered : Type 0 where
  pub stored : FileRecord
  pub previous : Option FileRecord

-- `existing.admissionId !== options.admissionId`
unfoldable pub same_token : Option Text → Option Text → Bool
same_token none none = true
same_token (some a) (some b) = text_eq a b
same_token _ _ = false

-- `file.protectedBytes ?? Math.max(file.storedBytes, file.fileSize)`
abbrev new_protected : NewFileRecord → ℕ
new_protected file = get_or file.protected_bytes (max file.stored_bytes file.file_size)

-- A confirmed record that is uploaded again.
unfoldable pub kept_confirmed : FileRecord → NewFileRecord → RegisterFileOptions → FileRecord
kept_confirmed existing file options = record existing {
  stored_bytes = max existing.stored_bytes file.stored_bytes;
  protected_bytes = some (max (protected_storage_bytes existing) (new_protected file));
  file_size = if ltb 0 file.file_size then file.file_size else existing.file_size;
  pinned = true;
  held_locally = true;
  admission_id = options.admission_id;
  admission_settled_at = none;
  replica_stage = none;
}

unfoldable pub new_record : Option FileRecord → NewFileRecord → RegisterFileOptions → FileRecord
new_record existing file options = record {
  cid = file.cid;
  name = file.name;
  state = if options.confirmation_required then temporary else confirmed;
  created_at = elim existing [ none ↦ options.now | some r ↦ r.created_at ];
  expires_at =
      if options.confirmation_required then some (options.now + options.temporary_ttl_ms) else none;
  confirmed_at = if options.confirmation_required then none else some options.now;
  file_size = file.file_size;
  stored_bytes = file.stored_bytes;
  protected_bytes = some (new_protected file);
  pinned = true;
  held_locally = true;
  replicas = elim existing [ none ↦ [] | some r ↦ r.replicas ];
  admission_id = options.admission_id;
  admission_settled_at = none;
  replica_stage = none;
  revision = none;
}

-- A replica stage that a caller without an admission must not take over.
abbrev pub is_staged_for_other : Option FileRecord → RegisterFileOptions → Bool
is_staged_for_other none options = false
is_staged_for_other (some r) options = is_some r.replica_stage && is_none options.admission_id

-- Another upload owns the record.
abbrev pub is_owned_by_other : Process → Option FileRecord → RegisterFileOptions → Bool
is_owned_by_other p none options = false
is_owned_by_other p (some r) options =
    is_some r.admission_id
    && (not (same_token r.admission_id options.admission_id)
        && (not (is_admission_settled r) || is_active_admission p r.admission_id))

abbrev pub to_write : Option FileRecord → NewFileRecord → RegisterFileOptions → FileRecord
to_write none file options = new_record none file options
to_write (some r) file options =
    if is_confirmed r.state then kept_confirmed r file options else new_record (some r) file options

-- `key.startsWith(keyPrefix) ? key.slice(keyPrefix.length) : ''`
unfoldable pub strip : Text → Text → Text
strip [] k = k
strip (c ∷ cs) [] = []
strip (c ∷ cs) (d ∷ ds) = if c == d then strip cs ds else []

unfoldable pub cid_of_key : Text → Text
unfolding strip
cid_of_key = strip (registry_prefix ++ 47 ∷ [])

-- What the work of `transition` answers: `'keep'`, `'remove'`, or the record to store.
pub data Transition : Type 0 where
  keep remove : Transition
  store : FileRecord → Transition

module _ (h : Host) where
  unfoldable pub decode_record : h.Bytes → Text → Option FileRecord
  decode_record value expected_cid = elim (h.decode value) [
    | none ↦ none
    | some r ↦ if is_file_record r && text_eq r.cid expected_cid then some r else none
  ]

  unfoldable pub decoded : Text → h.Bytes → h.World → h.World × Result (Option FileRecord)
  decoded cid value w = elim (decode_record value cid) [
    | none ↦ (w, threw (failure (text "Invalid lifecycle registry record")))
    | some r ↦ (w, ok (some r))
  ]

  unfoldable pub get : Text → h.World → h.World × Result (Option FileRecord)
  get cid w =
      or_else (and_then (h.datastore_get (key cid) w) (decoded cid))
        (λ e after. if is_not_found e then (after, ok none) else (after, threw e))

  unfoldable pub stamped : FileRecord → Text → FileRecord
  stamped r id = record r { revision = some (uuid id) }

  unfoldable pub write : FileRecord → h.World → h.World × Result FileRecord
  write stored w =
      if is_file_record stored
      then and_then (h.datastore_put (key stored.cid) (h.encode stored) w)
          (λ u after. (after, ok stored))
      else (w, threw (failure (text "Refusing to store an invalid lifecycle record")))

  unfoldable pub save : FileRecord → h.World → h.World × Result FileRecord
  save r w = let (after, id) = h.random_uuid w in write (stamped r id) after

  unfoldable pub remove_record : Text → h.World → h.World × Result Done
  remove_record cid w =
      or_else (h.datastore_delete (key cid) w)
        (λ e after. if is_not_found e then (after, ok done) else (after, threw e))

  unfoldable pub register_existing :
      Process
      → NewFileRecord
      → RegisterFileOptions
      → Option FileRecord
      → h.World
      → h.World × Result Registered
  register_existing p file options existing w =
      if is_active_repair p file.cid then (w, threw (busy file.cid)) else elim existing [
        | none ↦
            and_then (save (new_record none file options) w)
              (λ r after. (after, ok (record { stored = r; previous = none })))
        | some r ↦
            if is_staged_for_other (some r) options
            then (w, ok (record { stored = r; previous = some r }))
            else if is_owned_by_other p (some r) options
            then (w, threw (busy file.cid))
            else and_then (save (to_write (some r) file options) w)
                (λ s after. (after, ok (record { stored = s; previous = some r })))
      ]

  unfoldable pub register_exclusively :
      Process → NewFileRecord → RegisterFileOptions → h.World → h.World × Result Registered
  unfolding register_existing
  register_exclusively p file options w =
      and_then (get file.cid w) (λ existing after. register_existing p file options existing after)

  unfoldable pub apply_transition :
      Text → Transition → h.World → h.World × Result (Option FileRecord)
  apply_transition cid keep w = (w, ok none)
  apply_transition cid remove w = and_then (remove_record cid w) (λ d after. (after, ok none))
  apply_transition cid (store r) w = and_then (save r w) (λ s after. (after, ok (some s)))

  unfoldable pub transition :
      Text
      → (Option FileRecord → h.World → h.World × Result Transition)
      → h.World
      → h.World × Result (Option FileRecord)
  transition cid work w =
      and_then (get cid w) (λ current known. and_then (work current known) (apply_transition cid))

  unfoldable pub create_if_absent : FileRecord → h.World → h.World × Result (Option FileRecord)
  create_if_absent r w = and_then (get r.cid w) (λ current known. elim current [
    | some s ↦ (known, ok none)
    | none ↦ and_then (save r known) (λ s after. (after, ok (some s)))
  ])

  -- The entries of a query that decode under the CID of their key, as `list` yields them.
  unfoldable pub listed : List (Text × h.Bytes) → List FileRecord
  listed [] = []
  listed (e ∷ es) =
      let rest = listed es in
      elim (decode_record e.1 (cid_of_key e.0)) [ none ↦ rest | some r ↦ r ∷ rest ]
