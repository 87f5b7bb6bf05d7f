-- ===== src/Registry/Valid.antt =====
-- `isFileRecord` and `isReplicaStage` (src/storage/registry.ts) on records whose fields already have
-- their types: what is left of the two validators is what the types do not say.
use ipfs_node.Base.Texts.{Text}
use ipfs_node.Base.{
  Bool, true, false, ◌&&◌, ◌||◌, not, Option, none, some, List, [], ◌∷◌, is_some, is_none, all,
}
use ipfs_node.Registry.Types.{
  FileRecord, ReplicaStage, Revision, uuid, stamp, contains, is_temporary,
}

abbrev pub nonempty {ℓ} : {A : Type ℓ} → List A → Bool
nonempty [] = false
nonempty (x ∷ xs) = true

-- `new Set(xs).size === xs.length`
unfoldable pub no_repeats : List Text → Bool
no_repeats [] = true
no_repeats (x ∷ xs) = not (contains x xs) && no_repeats xs

origins_are_valid : List Text → Option (List (Text × Text)) → Bool
origins_are_valid ids none = true
origins_are_valid ids (some entries) = all (λ e. contains e.0 ids && nonempty e.1) entries

unfoldable pub is_replica_stage : ReplicaStage → Bool
unfolding no_repeats origins_are_valid
is_replica_stage s =
    nonempty s.transaction_ids
    && (no_repeats s.transaction_ids
        && (all nonempty s.transaction_ids && origins_are_valid s.transaction_ids s.origins))

revision_is_valid : Option Revision → Bool
revision_is_valid none = true
revision_is_valid (some (uuid t)) = nonempty t
revision_is_valid (some (stamp n)) = true

admission_is_valid : Option Text → Bool
admission_is_valid none = true
admission_is_valid (some id) = nonempty id

unfoldable pub stage_is_valid : FileRecord → Option ReplicaStage → Bool
stage_is_valid r none = true
stage_is_valid r (some s) =
    is_temporary r.state
    && (r.pinned && (r.held_locally && (is_some r.expires_at && is_replica_stage s)))

unfoldable pub is_file_record : FileRecord → Bool
unfolding revision_is_valid admission_is_valid stage_is_valid
is_file_record r =
    nonempty r.cid
    && (revision_is_valid r.revision
        && (admission_is_valid r.admission_id
            && ((is_none r.admission_settled_at || is_some r.admission_id)
                && stage_is_valid r r.replica_stage)))
