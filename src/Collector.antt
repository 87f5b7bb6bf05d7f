-- ===== src/Collector.antt =====
-- `runGarbageCollection` (src/storage/gc.ts): the plan is carried out file by file, each under the lock
-- of its CID. Other tasks may run wherever no lock is held.
pub mod Steps
pub mod Survival
pub mod Release
pub mod Abandoned
mod Tests
use ipfs_node.Base.Texts.{Text, text}
use ipfs_node.Base.Int.{ℤ}
use ipfs_node.Base.{
  ℕ, ◌+◌, Bool, true, false, ◌&&◌, ◌||◌, not, Option, none, some, List, [], ◌∷◌, ◌++◌,
  if◌then◌else◌, map, filter, ltb, length,
}
use ipfs_node.Registry.{
  FileRecord, Process, Revision, is_confirmed, is_admission_in_flight, nonempty,
}
use ipfs_node.Host.{is_not_found, Host, Error, failure, Result, ok, threw, and_then, or_else}
use ipfs_node.FileRegistry.{
  Transition, keep, remove, get, save, listed, transition, registry_prefix,
}
use ipfs_node.Lifecycle.{pin_file, unpin_file, released_record}
use ipfs_node.Admission.{same_revision}
use ipfs_node.Replica.Settling.{restore_replica_stage}
use ipfs_node.Gc.Plan.{
  Watermarks, GcPlanInput, GcPlan, CollectionTrigger, forced, plan_garbage_collection,
}

-- An event of Helia's collection.
pub data GcEvent : Type 0 where
  deleted : Text → GcEvent
  gc_error : Text → GcEvent

-- What the run calls beside the host: whether Helia keeps a CID, the query of the datastore (its
-- entries, and an error it may end with), Helia's collection, the caller's lease, and what other tasks
-- do to the world between two steps.
pub record Collector (h : Host) : Type 0 where
  pub is_pinned : Text → h.World → h.World × Result Bool
  pub query : Text → h.World → h.World × (List (Text × h.Bytes) × Option Error)
  -- Whether the error carries the code `ENOENT`.
  pub is_enoent : Error → Bool
  pub gc : h.World → h.World × Result (List GcEvent)
  pub with_lease :
      (h.World → h.World × Result (List GcEvent)) → h.World → h.World × Result (List GcEvent)
  pub others : h.World → h.World
  pub process : h.World → Process

pub record GcRunOptions : Type 0 where
  pub watermarks : Watermarks
  pub blockstore_bytes : ℕ
  pub reclaimable_bytes : Option ℤ
  pub available_bytes : Option ℕ
  pub reserve_bytes : Option ℕ
  pub dry_run : Bool
  pub force : Bool
  pub now : ℕ

-- The message of an error, by the step that failed.
pub data GcFailure : Type 0 where
  pin_check_failed release_failed cleanup_failed : Text → Error → GcFailure
  not_deleted : Text → GcFailure

pub record GcReport : Type 0 where
  pub dry_run : Bool
  pub collected : Bool
  pub trigger : CollectionTrigger
  pub blockstore_bytes_before : ℕ
  pub estimated_bytes_after : ℕ
  pub released_cids : List Text
  pub retained_cids : List Text
  pub removed_blocks : ℕ
  pub removed_cids : List Text
  pub repaired_pins : List Text
  pub unprotected : List Text
  pub errors : List GcFailure

-- `MAX_REPORTED_CIDS`
abbrev pub max_reported_cids : ℕ
max_reported_cids = 1000

abbrev pub input_of : GcRunOptions → List FileRecord → GcPlanInput
input_of o records = record {
  blockstore_bytes = o.blockstore_bytes;
  reclaimable_bytes = o.reclaimable_bytes;
  watermarks = o.watermarks;
  available_bytes = o.available_bytes;
  reserve_bytes = o.reserve_bytes;
  records = records;
  now = o.now;
}

abbrev pub cids : List FileRecord → List Text
cids = map (λ (r : FileRecord). r.cid)

unfoldable pub report_of : GcRunOptions → GcPlan → GcReport
report_of o plan = record {
  dry_run = o.dry_run;
  collected = false;
  trigger = if o.force then forced else plan.trigger;
  blockstore_bytes_before = o.blockstore_bytes;
  estimated_bytes_after = plan.estimated_bytes_after;
  released_cids = cids (plan.expired ++ plan.evicted);
  retained_cids = cids plan.retained;
  removed_blocks = 0;
  removed_cids = [];
  repaired_pins = [];
  unprotected = [];
  errors = [];
}

-- `item.state === 'confirmed' && item.heldLocally`
unfoldable pub is_held_confirmed : FileRecord → Bool
is_held_confirmed r = is_confirmed r.state && r.held_locally

-- What the guard rail writes down about one file.
unfoldable pub note_check : Text → Result Bool → GcReport → GcReport
note_check cid (ok repaired) report =
    if repaired then record report { repaired_pins = report.repaired_pins ++ cid ∷ [] } else report
note_check cid (threw e) report = record report {
  unprotected = report.unprotected ++ cid ∷ [];
  errors = report.errors ++ pin_check_failed cid e ∷ [];
}

-- Whether the record that is found may be released as planned.
unfoldable pub is_as_planned : Process → FileRecord → FileRecord → Bool
is_as_planned p selected current =
    same_revision current.revision selected.revision
    && (not (is_confirmed current.state) && not (is_admission_in_flight p current))

unfoldable pub note_event : GcReport → GcEvent → GcReport
note_event report (deleted cid) = record report {
  removed_blocks = report.removed_blocks + 1;
  removed_cids =
      if ltb (length report.removed_cids) max_reported_cids
      then report.removed_cids ++ cid ∷ []
      else report.removed_cids;
}
note_event report (gc_error message) = record report {
  errors = report.errors ++ not_deleted message ∷ [];
}

unfoldable pub note_events : GcReport → List GcEvent → GcReport
note_events report [] = report
note_events report (e ∷ es) = note_events (note_event report e) es

-- `deletionErrors > 0`
unfoldable pub some_not_deleted : List GcEvent → Bool
some_not_deleted [] = false
some_not_deleted (deleted cid ∷ es) = some_not_deleted es
some_not_deleted (gc_error message ∷ es) = true

-- `current?.revision`
abbrev pub revision_of : Option FileRecord → Option Revision
revision_of none = none
revision_of (some r) = r.revision

abbrev pub cleanup_choice : FileRecord → Option FileRecord → Transition
cleanup_choice released current =
    if same_revision (revision_of current) released.revision then remove else keep

module _ (h : Host) (c : Collector h) where
  unfoldable pub has_local_dag : Text → h.World → h.World × Result Bool
  has_local_dag cid w =
      or_else (and_then (h.stat cid w) (λ s after. (after, ok true))) (λ e after. (after, ok false))

  unfoldable pub is_missing_store : Error → Bool
  is_missing_store e = c.is_enoent e || is_not_found e

  -- `registry.all`
  unfoldable pub all_records : h.World → h.World × Result (List FileRecord)
  all_records w =
      let (after, (entries, failed)) = c.query registry_prefix w in
      elim failed [
        | none ↦ (after, ok (listed h entries))
        | some e ↦ if is_missing_store e then (after, ok (listed h entries)) else (after, threw e)
      ]

  unfoldable pub undo_repair : Bool → FileRecord → Error → h.World → h.World × Result Bool
  undo_repair created r e w =
      if created && not r.pinned
      then and_then (unpin_file h r.cid w) (λ b after. (after, threw e))
      else (w, threw e)

  unfoldable pub repair_pin : FileRecord → h.World → h.World × Result Bool
  repair_pin r w = and_then (has_local_dag r.cid w) (λ is_local known.
      if is_local
      then and_then (pin_file h false r.cid known) (λ created pinned.
        or_else
          (and_then (save h (record r { pinned = true }) pinned) (λ s after. (after, ok true)))
          (undo_repair created r))
      else (known, threw (failure (text "Confirmed file is missing local blocks"))))

  unfoldable pub check_found : Option FileRecord → h.World → h.World × Result Bool
  check_found none w = (w, ok false)
  check_found (some r) w =
      if is_held_confirmed r
      then and_then (c.is_pinned r.cid w)
          (λ safe known. if safe then (known, ok false) else repair_pin r known)
      else (w, ok false)

  -- The guard rail for one file: whether its pin was restored, or would be.
  unfoldable pub check_one : Bool → Text → h.World → h.World × Result Bool
  check_one dry cid w =
      if dry
      then and_then (c.is_pinned cid w) (λ safe after. (after, ok (not safe)))
      else and_then (get h cid w) check_found

  unfoldable pub check_each : Bool → List FileRecord → GcReport → h.World → h.World × GcReport
  check_each dry [] report w = (w, report)
  check_each dry (r ∷ rs) report w =
      let (after, result) = check_one dry r.cid (c.others w) in
      check_each dry rs (note_check r.cid result report) after

  unfoldable pub undo_release :
      Bool → FileRecord → Error → h.World → h.World × Result (Option FileRecord)
  undo_release removed r e w =
      if removed && r.pinned
      then and_then (pin_file h false r.cid w) (λ b after. (after, threw e))
      else (w, threw e)

  unfoldable pub release_plain : FileRecord → h.World → h.World × Result (Option FileRecord)
  release_plain r w = and_then (unpin_file h r.cid w) (λ removed unpinned.
      or_else (and_then (save h (released_record r) unpinned) (λ s after. (after, ok (some s))))
        (undo_release removed r))

  unfoldable pub release_current : FileRecord → h.World → h.World × Result (Option FileRecord)
  release_current r w = elim r.replica_stage [
    | none ↦ release_plain r w
    | some s ↦ restore_replica_stage h r s.previous true w
  ]

  unfoldable pub release_found :
      FileRecord → Option FileRecord → h.World → h.World × Result (Option FileRecord)
  release_found selected none w = (w, ok none)
  release_found selected (some r) w =
      if is_as_planned (c.process w) selected r then release_current r w else (w, ok none)

  unfoldable pub release_one : FileRecord → h.World → h.World × Result (Option FileRecord)
  release_one selected w = and_then (get h selected.cid w) (release_found selected)

  -- The released records, and the errors.
  unfoldable pub release_each :
      List FileRecord → h.World → h.World × (List FileRecord × List GcFailure)
  release_each [] w = (w, ([], []))
  release_each (r ∷ rs) w =
      let (after, result) = release_one r (c.others w) in
      let (final, (released, errors)) = release_each rs after in
      elim result [
        | ok none ↦ (final, (released, errors))
        | ok (some s) ↦ (final, (s ∷ released, errors))
        | threw e ↦ (final, (released, release_failed r.cid e ∷ errors))
      ]

  unfoldable pub cleanup_one : FileRecord → h.World → h.World × Result (Option FileRecord)
  cleanup_one released w =
      transition h released.cid (λ current known. (known, ok (cleanup_choice released current))) w

  unfoldable pub cleanup_each : List FileRecord → h.World → h.World × List GcFailure
  cleanup_each [] w = (w, [])
  cleanup_each (r ∷ rs) w =
      let (after, result) = cleanup_one r (c.others w) in
      let (final, errors) = cleanup_each rs after in
      elim result [ ok s ↦ (final, errors) | threw e ↦ (final, cleanup_failed r.cid e ∷ errors) ]

  -- After Helia's collection: the released records go, unless some block could not be deleted.
  unfoldable pub finish_run :
      List FileRecord → GcReport → List GcEvent → h.World → h.World × Result GcReport
  finish_run released report events w =
      let noted = note_events report events in
      let (after, errors) = cleanup_each released w in
      if some_not_deleted events then (w, ok noted) else (
        after,
        ok (record noted {
          errors = noted.errors ++ errors;
          collected = not (nonempty (noted.errors ++ errors));
        }),
      )

  unfoldable pub carry_out : Bool → List FileRecord → GcReport → h.World → h.World × Result GcReport
  carry_out collect planned report w =
      let (after, (released, errors)) = release_each planned w in
      let noted = record report {
        released_cids = cids released;
        errors = report.errors ++ errors;
      } in
      if collect
      then and_then (c.with_lease c.gc (c.others after)) (finish_run released noted)
      else (after, ok noted)

  unfoldable pub run_plan : GcRunOptions → GcPlan → h.World → h.World × Result GcReport
  run_plan o plan w =
      let (after, report) =
        check_each o.dry_run (filter is_held_confirmed plan.retained) (report_of o plan) w in
      if o.dry_run || nonempty report.unprotected
      then (after, ok report)
      else carry_out (o.force || plan.should_collect) (plan.expired ++ plan.evicted) report after

  unfoldable pub run_garbage_collection : GcRunOptions → h.World → h.World × Result GcReport
  run_garbage_collection o w = and_then (all_records w) (λ records known.
      run_plan o (plan_garbage_collection (c.process known) (input_of o records)) known)
