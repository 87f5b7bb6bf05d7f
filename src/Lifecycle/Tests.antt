-- ===== src/Lifecycle/Tests.antt =====
-- The theorems on transitions at a concrete host, and a release that fails and is undone.
use ipfs_node.Base.Texts.{text, text_eq}
use ipfs_node.Base.{◌≡◌, refl, true, false, none, some, [], ◌∷◌}
use ipfs_node.Registry.{
  FileRecord, confirmed, Process, is_file_record, is_lifecycle_busy, is_admission_in_flight,
  is_admission_settled, is_active_repair, is_active_admission, contains,
}
use ipfs_node.Host.{ok, threw, failure, and_then, or_else}
use ipfs_node.Host.Laws.{Post}
use ipfs_node.FileRegistry.{key, decode_record, decoded, get, stamped, write, save}
use ipfs_node.Lifecycle.{
  RegisterPinnedOptions, release_stored_file, release_known, confirm_under_lock, pin_file,
  unpin_file, is_directly_pinned, was_pinned, restore_pin, restore_record,
  restore_lifecycle_baseline, rollback_error, error_of, released_record,
}
use ipfs_node.Lifecycle.Rollback.{Undone}
use ipfs_node.Lifecycle.Release.{Released, release_stored_file-Post}
use ipfs_node.Lifecycle.Confirm.{Confirmed, confirm_under_lock-Post}
use ipfs_node.Lifecycle.Model.{
  Toy, toy, toy_view, toy_laws, update, finish, toy_get, toy_put, toy_rm, toy_add, toy_pins_get,
}

abbrev durable : FileRecord
durable = record {
  cid = text "f";
  name = text "f";
  state = confirmed;
  created_at = 1;
  expires_at = none;
  confirmed_at = some 1;
  file_size = 5;
  stored_bytes = 5;
  protected_bytes = none;
  pinned = true;
  held_locally = true;
  replicas = [];
  admission_id = none;
  admission_settled_at = none;
  replica_stage = none;
  revision = none;
}

abbrev idle : Process
idle = record { active_admissions = []; active_repairs = [] }

-- The pin goes, then the record's write fails after it is persisted.
abbrev failing : Toy
failing = record {
  values = update (key (text "f")) (some durable) (λ j. none);
  pins = λ j. true;
  faults = false ∷ true ∷ [];
}

abbrev pin_f : RegisterPinnedOptions
pin_f = record { cid = text "f"; name = none; temporary_ttl_ms = 100; timed = false; now = 7 }

release_undone :
    let run = release_stored_file toy idle (text "f") failing in
    (run.1 ≡ threw (failure (text "fault")))
    × (run.0.pins (text "f") ≡ true)
    × ((get toy (text "f") run.0).1 ≡ ok (some (stamped toy durable (text "uuid"))))
unfolding release_stored_file release_known get decoded decode_record and_then or_else write save
    stamped is_file_record is_lifecycle_busy is_admission_in_flight is_admission_settled
    is_active_repair is_active_admission contains pin_file unpin_file was_pinned is_directly_pinned
    restore_pin restore_record restore_lifecycle_baseline rollback_error error_of released_record
    update finish toy_get toy_put toy_rm toy_add toy_pins_get key text_eq
release_undone = (refl, refl, refl)

release_stored_file-Post_example :
    Post
      (Released toy toy_view (text "f") failing)
      (Undone toy toy_view (text "f") failing)
      (release_stored_file toy idle (text "f") failing)
release_stored_file-Post_example =
    release_stored_file-Post toy toy_view toy_laws idle (text "f") failing (λ x. refl)

confirm_under_lock-Post_example :
    Post
      (Confirmed toy toy_view (text "f") failing)
      (Undone toy toy_view (text "f") failing)
      (confirm_under_lock toy idle pin_f true failing)
confirm_under_lock-Post_example =
    confirm_under_lock-Post toy toy_view toy_laws idle pin_f true failing (λ x. refl)
