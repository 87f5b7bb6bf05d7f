-- ===== src/Replica/Tests.antt =====
-- The theorems on prepared copies at a concrete host, and an abort whose write fails.
use ipfs_node.Base.Texts.{text, text_eq, text_ne}
use ipfs_node.Base.{length, ◌<◌, ◌≡◌, ◌≢◌, refl, true, false, none, some, [], ◌∷◌, inl, inr, arith}
use ipfs_node.Registry.{
  FileRecord, temporary, contains, set_delete, is_file_record, is_replica_stage,
}
use ipfs_node.Host.{Host, ok, threw, failure, and_then, or_else}
use ipfs_node.Host.Laws.{Post}
use ipfs_node.FileRegistry.{key, decode_record, decoded, get, stamped, write, save}
use ipfs_node.Lifecycle.{unpin_file}
use ipfs_node.Lifecycle.Steps.{record_at}
use ipfs_node.Lifecycle.Rollback.{Undone}
use ipfs_node.Lifecycle.Model.{
  Toy, toy, toy_view, toy_laws, update, finish, toy_get, toy_rm, toy_put,
}
use ipfs_node.Replica.{ReplicaStageTarget, stage_replica, is_stage_owner, origin_of, find_origin}
use ipfs_node.Replica.Settling.{
  SettleReplicaOptions, commit_replica, abort_replica, abort_found, abort_staged,
  restore_replica_stage, write_baseline, baseline_of,
}
use ipfs_node.Replica.Diagram.{Stages, Commits, Aborts}
use ipfs_node.Replica.Outcome.{copy_at}
use ipfs_node.Replica.Moves.{Moves}
use ipfs_node.Replica.Stage.{stage_replica-Stages}
use ipfs_node.Replica.Commit.{commit_replica-Commits}
use ipfs_node.Replica.Abort.{abort_replica-Aborts}
use ipfs_node.Replica.Protection.{Held, stage_replica-Post}
use ipfs_node.Replica.Sequence.{
  stage, abort, CountsOn, is_prepared, done, beside, by_stage, by_abort, perform_all,
  perform_all-CountsOn,
}
use ipfs_node.Tombstones.{
  Tombstones, remember_abort, was_aborted, transaction_key, transaction_prefix,
  max_abort_tombstones, prune_abort_tombstones, trim, map_set,
}
use ipfs_node.Tombstones.Passing.{now_there, asked, aborted}
use ipfs_node.Replica.Late.{is_ok, marker, abort_replica-stage_replica}

-- A copy that transaction `a` of peer `p` has prepared; the file was known, and expired, before.
abbrev staged : FileRecord
staged = record {
  cid = text "f";
  name = text "f";
  state = temporary;
  created_at = 1;
  expires_at = some 50;
  confirmed_at = none;
  file_size = 5;
  stored_bytes = 5;
  protected_bytes = none;
  pinned = true;
  held_locally = true;
  replicas = [];
  admission_id = none;
  admission_settled_at = none;
  replica_stage = some (record {
    transaction_ids = text "a" ∷ [];
    origins = some ((text "a", text "p") ∷ []);
    previous = some (record { expires_at = some 3; confirmed_at = none });
  });
  revision = none;
}

abbrev prepared_once : Toy
prepared_once = record {
  values = update (key (text "f")) (some staged) (λ j. none);
  pins = λ j. true;
  faults = [];
}

-- The next write fails after it is persisted.
abbrev failing : Toy
failing = record prepared_once { faults = true ∷ [] }

abbrev stage_b : ReplicaStageTarget
stage_b = record {
  cid = text "f";
  transaction_id = text "b";
  temporary_ttl_ms = 100;
  now = 7;
  origin_peer_id = some (text "q");
}

abbrev settle_a : SettleReplicaOptions
settle_a = record {
  cid = text "f";
  transaction_id = text "a";
  now = 8;
  tombstone_ttl_ms = none;
  peer_id = some (text "p");
}

abbrev settle_b : SettleReplicaOptions
settle_b = record settle_a { transaction_id = text "b"; peer_id = some (text "q") }

stage_replica-Post_example :
    Post
      (Held toy toy_view toy_laws (text "f"))
      (Undone toy toy_view (text "f") failing)
      (stage_replica toy stage_b [] failing).1
stage_replica-Post_example = stage_replica-Post toy toy_view toy_laws stage_b [] failing (λ x. refl)

stage_replica-Stages_example :
    Moves toy toy_view
      (text "f")
      (Stages (text "b"))
      (copy_at toy toy_view failing (text "f"))
      (stage_replica toy stage_b [] failing).1
stage_replica-Stages_example = stage_replica-Stages toy toy_view toy_laws stage_b [] failing

commit_replica-Commits_example :
    Moves toy toy_view
      (text "f")
      (Commits (text "a"))
      (copy_at toy toy_view failing (text "f"))
      (commit_replica toy settle_a failing)
commit_replica-Commits_example = commit_replica-Commits toy toy_view toy_laws settle_a failing

abort_replica-Aborts_example :
    Moves toy toy_view
      (text "f")
      (Aborts (text "a"))
      (copy_at toy toy_view failing (text "f"))
      (abort_replica toy settle_a [] failing).1
abort_replica-Aborts_example = abort_replica-Aborts toy toy_view toy_laws settle_a [] failing

b_is_not_a : text "b" ≢ text "a"
unfolding text_eq
b_is_not_a = text_ne (text "b") (text "a") refl

prepared_a-CountsOn : CountsOn (text "a") (copy_at toy toy_view failing (text "f"))
unfolding contains record_at update text_eq key decode_record is_file_record is_replica_stage
prepared_a-CountsOn = is_prepared refl

perform_all-CountsOn_example : CountsOn (text "a") (
    copy_at toy toy_view
      (perform_all toy (text "f") (stage stage_b ∷ abort settle_b ∷ []) ([], failing)).1
      (text "f"))
perform_all-CountsOn_example =
    perform_all-CountsOn toy toy_view toy_laws (text "f") (text "a")
      (stage stage_b ∷ abort settle_b ∷ []) ([], failing)
      (beside by_stage (beside (by_abort b_is_not_a) done)) prepared_a-CountsOn

abort_returns : is_ok (abort_replica toy settle_a [] prepared_once).1.1 ≡ true
unfolding abort_replica abort_found abort_staged restore_replica_stage write_baseline baseline_of
    get decoded decode_record and_then or_else write save stamped is_file_record is_replica_stage
    contains set_delete unpin_file update finish toy_get toy_rm toy_put key text_eq is_stage_owner
    origin_of find_origin
abort_returns = refl

-- A stage asks, and transaction `b` is aborted, before the late stage of `a` arrives.
abbrev marks_later : Tombstones
marks_later =
    remember_abort (text "f") (text "b") 900 10 none
      (was_aborted (text "f") (text "b") none 9 (abort_replica toy settle_a [] prepared_once).0).0

other_key : transaction_key (text "f") (text "b") none ≢ (marker toy settle_a).0
unfolding transaction_key transaction_prefix text_eq
other_key = text_ne _ _ refl

has_room :
    length
      (was_aborted (text "f") (text "b") none 9 (abort_replica toy settle_a [] prepared_once).0).0
    < max_abort_tombstones
unfolding abort_replica abort_found abort_staged restore_replica_stage write_baseline baseline_of
    get decoded decode_record and_then or_else write save stamped is_file_record is_replica_stage
    contains set_delete unpin_file update finish toy_get toy_rm toy_put key text_eq is_stage_owner
    origin_of find_origin was_aborted remember_abort prune_abort_tombstones trim map_set
    transaction_key transaction_prefix
has_room = omega arith

abort_replica-stage_replica_example :
    (stage_replica toy
      (record stage_b { transaction_id = text "a"; origin_peer_id = some (text "p") })
      marks_later
      prepared_once).1
    ≡ (prepared_once, threw (failure (text "Replica transaction was already aborted")))
abort_replica-stage_replica_example =
    abort_replica-stage_replica toy settle_a
      (record stage_b { transaction_id = text "a"; origin_peer_id = some (text "p") }) []
      marks_later prepared_once prepared_once abort_returns
      (asked (text "f") (text "b") none 9 (omega arith)
        (aborted (text "f") (text "b") none 900 10 (omega arith) other_key has_room now_there))
      refl refl (inr (inl refl)) (omega arith) (omega arith)

-- A store whose writes fail and leave nothing behind.
abbrev full_disk : Host
full_disk = record toy { datastore_put = λ k b w. (w, threw (failure (text "no space"))) }

-- The abort removes the pin, its write fails, and neither is put back: the record claims a pin that
-- is gone.
abort_unrepaired :
    let run = (abort_replica full_disk settle_a [] prepared_once).1 in
    (run.1 ≡ threw (failure (text "no space")))
    × (run.0.pins (text "f") ≡ false)
    × ((get full_disk (text "f") run.0).1 ≡ ok (some staged))
unfolding abort_replica abort_found abort_staged restore_replica_stage write_baseline baseline_of
    get decoded decode_record and_then or_else write save stamped is_file_record is_replica_stage
    contains set_delete unpin_file update finish toy_get toy_rm key text_eq is_stage_owner origin_of
    find_origin
abort_unrepaired = (refl, refl, refl)
