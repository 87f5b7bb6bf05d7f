-- ===== src/Registry/Staged.antt =====
-- What a valid record of a prepared copy says (`isFileRecord` of src/storage/registry.ts).
use ipfs_node.Base.{Bool, true, ◌≡◌, ◌&&◌, ◌∙◌, sym, ap, some, arith}
use ipfs_node.Registry.Types.{FileRecord, ReplicaStage, is_temporary}
use ipfs_node.Registry.Valid.{is_file_record, stage_is_valid}

-- A record with a stage is temporary and claims its pin.
pub staged_is_temporary :
    (r : FileRecord) (s : ReplicaStage)
    → is_file_record r ≡ true
    → r.replica_stage ≡ some s
    → (is_temporary r.state ≡ true) × (r.pinned ≡ true)
unfolding is_file_record stage_is_valid
staged_is_temporary r s valid e =
    let staged : stage_is_valid r r.replica_stage ≡ true = ground (arith, valid) in
    parts (is_temporary r.state) r.pinned _ (sym (ap (stage_is_valid r) e) ∙ staged)
  where
    parts : (a b c : Bool) → (a && (b && c)) ≡ true → (a ≡ true) × (b ≡ true)
    parts a b c h = (ground (arith, h), ground (arith, h))
