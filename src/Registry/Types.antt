-- ===== src/Registry/Types.antt =====
-- The durable record of a file (src/storage/registry.ts) and what the process owns in memory
-- (src/storage/admissionState.ts, src/storage/repairState.ts).
use ipfs_node.Base.Texts.{Text, text_eq}
use ipfs_node.Base.{
  ℕ, ◌+◌, max, Bool, true, false, ◌&&◌, ◌||◌, not, Option, none, some, List, [], ◌∷◌, leb, is_some,
  is_none, any, filter, if◌then◌else◌,
}

pub data FileState : Type 0 where
  temporary confirmed expired : FileState

-- The literal fields `state: 'expired'`, `pinned: false` and `heldLocally: false` are left out.
pub record ReplicaStageBaseline : Type 0 where
  pub expires_at : Option ℕ
  pub confirmed_at : Option ℕ

pub record ReplicaStage : Type 0 where
  pub transaction_ids : List Text
  pub origins : Option (List (Text × Text))
  pub previous : Option ReplicaStageBaseline

-- A UUID, or the number of an earlier version.
pub data Revision : Type 0 where
  uuid : Text → Revision
  stamp : ℕ → Revision

pub record FileRecord : Type 0 where
  pub cid : Text
  pub name : Text
  pub state : FileState
  pub created_at : ℕ
  pub expires_at : Option ℕ
  pub confirmed_at : Option ℕ
  pub file_size : ℕ
  pub stored_bytes : ℕ
  pub protected_bytes : Option ℕ
  pub pinned : Bool
  pub held_locally : Bool
  pub replicas : List Text
  pub admission_id : Option Text
  pub admission_settled_at : Option ℕ
  pub replica_stage : Option ReplicaStage
  pub revision : Option Revision

-- The module-level sets `activeAdmissions` and `activeRepairs`.
pub record Process : Type 0 where
  pub active_admissions : List Text
  pub active_repairs : List Text

unfoldable pub contains : Text → List Text → Bool
contains a = any (text_eq a)

-- `set.add(a)`
unfoldable pub set_add : Text → List Text → List Text
unfolding contains
set_add a xs = if contains a xs then xs else a ∷ xs

-- `set.delete(a)`
unfoldable pub set_delete : Text → List Text → List Text
set_delete a = filter (λ b. not (text_eq a b))

unfoldable pub begin_admission : Text → Process → Process
begin_admission id p = record p { active_admissions = set_add id p.active_admissions }

unfoldable pub end_admission : Text → Process → Process
end_admission id p = record p { active_admissions = set_delete id p.active_admissions }

unfoldable pub is_active_admission : Process → Option Text → Bool
is_active_admission p none = false
is_active_admission p (some id) = contains id p.active_admissions

unfoldable pub is_active_repair : Process → Text → Bool
is_active_repair p cid = contains cid p.active_repairs

-- The new set and whether the claim was granted.
unfoldable pub begin_repair : Text → Process → Process × Bool
begin_repair cid p =
    if contains cid p.active_repairs
    then (p, false)
    else (record p { active_repairs = set_add cid p.active_repairs }, true)

unfoldable pub end_repair : Text → Process → Process
end_repair cid p = record p { active_repairs = set_delete cid p.active_repairs }

abbrev pub is_temporary : FileState → Bool
is_temporary temporary = true
is_temporary _ = false

abbrev pub is_confirmed : FileState → Bool
is_confirmed confirmed = true
is_confirmed _ = false

unfoldable pub protected_storage_bytes : FileRecord → ℕ
protected_storage_bytes r = elim r.protected_bytes [
  | none ↦ max r.stored_bytes r.file_size
  | some n ↦ n
]

expired_at : Option ℕ → ℕ → Bool
expired_at none now = false
expired_at (some t) now = leb t now

expired_in : FileState → Option ℕ → ℕ → Bool
unfolding expired_at
expired_in expired t now = true
expired_in confirmed t now = false
expired_in temporary t now = expired_at t now

unfoldable pub is_expired : FileRecord → ℕ → Bool
unfolding expired_in
is_expired r now = expired_in r.state r.expires_at now

unfoldable pub is_reclaimable : FileRecord → ℕ → Bool
is_reclaimable r now = not (is_confirmed r.state) && is_expired r now

unfoldable pub is_admission_settled : FileRecord → Bool
is_admission_settled r = is_none r.admission_id || is_some r.admission_settled_at

unfoldable pub is_admission_in_flight : Process → FileRecord → Bool
is_admission_in_flight p r = not (is_admission_settled r) || is_active_admission p r.admission_id

unfoldable pub is_settled_held_file : Process → FileRecord → Bool
is_settled_held_file p r =
    is_confirmed r.state
    && (r.held_locally
        && (is_admission_settled r
            && (not (is_active_admission p r.admission_id) && not (is_active_repair p r.cid))))

unfoldable pub is_lifecycle_busy : Process → FileRecord → Bool
is_lifecycle_busy p r =
    is_some r.replica_stage || (is_admission_in_flight p r || is_active_repair p r.cid)

pub record StateCounts : Type 0 where
  pub temporary_count : ℕ
  pub confirmed_count : ℕ
  pub expired_count : ℕ

bump_count : FileState → StateCounts → StateCounts
bump_count temporary c = record c { temporary_count = c.temporary_count + 1 }
bump_count confirmed c = record c { confirmed_count = c.confirmed_count + 1 }
bump_count expired c = record c { expired_count = c.expired_count + 1 }

unfoldable pub count_by_state : List FileRecord → StateCounts
unfolding bump_count
count_by_state [] = record { temporary_count = 0; confirmed_count = 0; expired_count = 0 }
count_by_state (r ∷ rs) = bump_count r.state (count_by_state rs)
