-- ===== src/Base/Fields.antt =====
-- What the validators of src/storage/repairEvidence.ts and src/storage/config.ts tell apart in a field
-- of a decoded JSON value.
use ipfs_node.Base.Texts.{Text}
use ipfs_node.Base.{ℕ, Bool}

-- `count` is a safe integer that is not negative; `other` is any value of none of the other kinds.
pub data Field : Type 0 where
  undefined null other : Field
  string : Text → Field
  boolean : Bool → Field
  count : ℕ → Field
