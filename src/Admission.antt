-- ===== src/Admission.antt =====
-- src/storage/admission.ts, src/storage/rollback.ts and src/storage/repairClaim.ts: who owns a record
-- between the steps of an upload or a repair. Each function runs while the CID's lock is held.
pub mod Recovery
pub mod Undo
mod Tests
use ipfs_node.Base.Texts.{Text, text_eq}
use ipfs_node.Base.{
  ℕ, suc, Bool, true, false, ◌&&◌, ◌||◌, not, Option, none, some, List, [], ◌∷◌, ◌++◌,
  if◌then◌else◌, is_some, is_none, filter, length, ◌==◌,
}
use ipfs_node.Registry.{
  FileRecord, Process, Revision, uuid, stamp, is_admission_settled, is_active_admission,
  is_settled_held_file, begin_repair,
}
use ipfs_node.Host.{Host, Error, Result, Done, done, ok, threw, and_then, or_else}
use ipfs_node.FileRegistry.{get, save, same_token}
use ipfs_node.Lifecycle.{restore_record, claims_pin}

pub record AdmissionRecoveryReport : Type 0 where
  pub checked : ℕ
  pub recovered : ℕ
  pub errors : List (Text × Error)

-- An upload's token that nobody can settle any more.
unfoldable pub is_interrupted : Process → FileRecord → Bool
is_interrupted p r =
    is_some r.admission_id
    && (not (is_admission_settled r) && not (is_active_admission p r.admission_id))

abbrev pub without_token : FileRecord → FileRecord
without_token r = record r { admission_id = none; admission_settled_at = none }

-- `UploadRollback`; `unpin` is the callback.
pub record UploadRollback (h : Host) : Type 0 where
  pub cid : Text
  pub admission_id : Option Text
  pub previous : Option FileRecord
  pub created_pin : Bool
  pub unpin : h.World → h.World × Result Done

-- `current?.admissionId`
abbrev pub token_of : Option FileRecord → Option Text
token_of none = none
token_of (some r) = r.admission_id

-- `current.revision !== selected.revision`
unfoldable pub same_revision : Option Revision → Option Revision → Bool
same_revision none none = true
same_revision (some (uuid a)) (some (uuid b)) = text_eq a b
same_revision (some (stamp a)) (some (stamp b)) = a == b
same_revision _ _ = false

module _ (h : Host) where
  -- The decision and the write for the record that is found under the lock.
  unfoldable pub recover_found : Process → Option FileRecord → h.World → h.World × Result Bool
  recover_found p none w = (w, ok false)
  recover_found p (some r) w =
      if is_interrupted p r
      then and_then (save h (without_token r) w) (λ s after. (after, ok true))
      else (w, ok false)

  unfoldable pub recover_one : Process → Text → h.World → h.World × Result Bool
  recover_one p cid w = and_then (get h cid w) (recover_found p)

  abbrev counted : Text → Result Bool → AdmissionRecoveryReport → AdmissionRecoveryReport
  counted cid (ok true) r = record r { recovered = suc r.recovered }
  counted cid (ok false) r = r
  counted cid (threw e) r = record r { errors = r.errors ++ (cid, e) ∷ [] }

  -- The loop over the candidates.
  unfoldable pub recover_each :
      Process
      → List FileRecord
      → h.World × AdmissionRecoveryReport
      → h.World × AdmissionRecoveryReport
  recover_each p [] state = state
  recover_each p (c ∷ cs) (w, report) =
      let (after, answer) = recover_one p c.cid w in
      recover_each p cs (after, counted c.cid answer report)

  -- `recoverInterruptedAdmissions` on the records of its scan.
  unfoldable pub recover_interrupted_admissions :
      Process → List FileRecord → h.World → h.World × AdmissionRecoveryReport
  recover_interrupted_admissions p records w =
      let candidates = filter (is_interrupted p) records in
      recover_each p candidates
        (w, record { checked = length candidates; recovered = 0; errors = [] })

  -- `clearSettledAdmission` for the record that is found under the lock.
  unfoldable pub clear_found :
      Process → FileRecord → Option FileRecord → h.World → h.World × Result Done
  clear_found p selected none w = (w, ok done)
  clear_found p selected (some r) w =
      if not (same_token r.admission_id selected.admission_id)
        || (not (is_admission_settled r) || is_active_admission p r.admission_id)
      then (w, ok done)
      else and_then (save h (without_token r) w) (λ s after. (after, ok done))

  unfoldable pub clear_settled_admission : Process → FileRecord → h.World → h.World × Result Done
  clear_settled_admission p selected w =
      if is_none selected.admission_id || is_active_admission p selected.admission_id
      then (w, ok done)
      else and_then (get h selected.cid w) (clear_found p selected)

  -- The new process sets come with the answer.
  unfoldable pub claim_repair_record :
      Process → FileRecord → h.World → h.World × Result (Process × Bool)
  claim_repair_record p selected w = and_then (get h selected.cid w) (λ current after.
      elim current [
        | none ↦ (after, ok (p, false))
        | some r ↦
            if not (same_revision r.revision selected.revision) || not (is_settled_held_file p r)
            then (after, ok (p, false))
            else (after, ok (begin_repair selected.cid p))
      ])

  unfoldable pub undo_pin : UploadRollback h → h.World → h.World × Result Done
  undo_pin o w = if o.created_pin && not (claims_pin o.previous) then o.unpin w else (w, ok done)

  unfoldable pub undo_upload : UploadRollback h → h.World → h.World × Result Done
  undo_upload o w = and_then (undo_pin o w) (λ d after. restore_record h o.cid o.previous after)

  -- `rollbackUpload`
  unfoldable pub rollback_upload : UploadRollback h → h.World → h.World × Result Done
  rollback_upload o w =
      if is_some o.admission_id
      then and_then (get h o.cid w) (λ current after.
        if same_token (token_of current) o.admission_id
        then undo_upload o after
        else (after, ok done))
      else undo_upload o w
