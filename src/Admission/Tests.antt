-- ===== src/Admission/Tests.antt =====
-- The theorems on ownership at a concrete host.
use ipfs_node.Base.Texts.{Text, text}
use ipfs_node.Base.{true, false, ◌≡◌, ◌⊎◌, none, some, []}
use ipfs_node.Registry.{FileRecord, temporary, Process}
use ipfs_node.Host.{Result, Done, done, ok, and_then}
use ipfs_node.Host.Laws.{Same, Post, on_ok}
use ipfs_node.FileRegistry.{key}
use ipfs_node.Lifecycle.Model.{Toy, toy, toy_view, toy_laws, update}
use ipfs_node.Lifecycle.Steps.{and_then-Post, unpin_file-Post}
use ipfs_node.Lifecycle.{unpin_file}
use ipfs_node.Admission.{UploadRollback, rollback_upload, recover_one}
use ipfs_node.Admission.Recovery.{Recovered, recover_one-Post}
use ipfs_node.Admission.Undo.{Owned, Adopted, Reverted, rollback_upload-Post}

abbrev uploaded : FileRecord
uploaded = record {
  cid = text "f";
  name = text "f";
  state = temporary;
  created_at = 1;
  expires_at = some 50;
  confirmed_at = none;
  file_size = 5;
  stored_bytes = 5;
  protected_bytes = none;
  pinned = true;
  held_locally = true;
  replicas = [];
  admission_id = some (text "token");
  admission_settled_at = none;
  replica_stage = none;
  revision = none;
}

abbrev interrupted : Toy
interrupted = record {
  values = update (key (text "f")) (some uploaded) (λ j. none);
  pins = λ j. true;
  faults = [];
}

abbrev restarted : Process
restarted = record { active_admissions = []; active_repairs = [] }

unpin_f : Toy → Toy × Result Done
unpin_f w = and_then (unpin_file toy (text "f") w) (λ b after. (after, ok done))

abbrev first_upload : UploadRollback toy
first_upload = record {
  cid = text "f";
  admission_id = some (text "token");
  previous = none;
  created_pin = true;
  unpin = unpin_f;
}

unpin_f-Post :
    (w : Toy)
    → Post (λ d after. toy_view.pin_at after (text "f") ≡ false) (λ e after. Unit) (unpin_f w)
unfolding unpin_f
unpin_f-Post w =
    and_then-Post _ (unpin_file-Post toy toy_view toy_laws (text "f") w) (λ b after q. on_ok q.0)
      (λ e after q. tt)

recover_one-Post_example :
    Post
      (λ b after.
        Recovered toy toy_view restarted (text "f") interrupted b after
        × ((j : Text) → toy_view.pin_at after j ≡ toy_view.pin_at interrupted j))
      (λ e after. (j : Text) → toy_view.pin_at after j ≡ toy_view.pin_at interrupted j)
      (recover_one toy restarted (text "f") interrupted)
recover_one-Post_example = recover_one-Post toy toy_view toy_laws restarted (text "f") interrupted

rollback_upload-Post_example :
    Post
      (λ d after.
        Adopted toy toy_view first_upload interrupted after
        ⊎ (Owned toy toy_view first_upload interrupted
            × Reverted toy toy_view first_upload interrupted after))
      (λ e after. Same toy toy_view interrupted after ⊎ Owned toy toy_view first_upload interrupted)
      (rollback_upload toy first_upload interrupted)
rollback_upload-Post_example =
    rollback_upload-Post toy toy_view toy_laws first_upload unpin_f-Post (λ r e. cc) interrupted
