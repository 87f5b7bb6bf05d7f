-- ===== src/Replica/Diagram.antt =====
-- What a prepared copy is to the uploads that ask for it: the states of a copy, and the moves that a
-- stage, a commit and an abort of one transaction make. It forgets pins, sizes, times and owners.
use ipfs_node.Base.Texts.{Text}
use ipfs_node.Base.{
  Bool, true, false, ◌≡◌, ◌≢◌, sym, subst, ◌||◌, not, Option, none, some, List, [], ◌∷◌, ◌++◌,
  is_some, arith, if◌then◌else◌,
}
use ipfs_node.Registry.{
  FileRecord, FileState, temporary, confirmed, expired, ReplicaStage, contains, set_delete,
  is_temporary, is_confirmed,
}
use ipfs_node.Replica.{belongs_to_upload, was_confirmed}

-- `prepared` says whether the registry knew the file before, and which transactions depend on the copy.
pub data Copy : Type 0 where
  absent released uploading durable : Copy
  prepared : Bool → List Text → Copy

abbrev pub copy_in : FileState → Copy
copy_in temporary = uploading
copy_in confirmed = durable
copy_in expired = released

abbrev pub copy_of : Option FileRecord → Copy
copy_of none = absent
copy_of (some r) = elim r.replica_stage [
  | none ↦ copy_in r.state
  | some s ↦ prepared (is_some s.previous) s.transaction_ids
]

abbrev pub is_member : Text → Copy → Bool
is_member t (prepared b ids) = contains t ids
is_member t _ = false

-- What is left when nobody depends on a prepared copy any more.
abbrev pub baseline : Bool → Copy
baseline known = if known then released else absent

pub data Stages (t : Text) : Copy → Copy → Type 0 where
  first : Stages t absent (prepared false (t ∷ []))
  first_known : Stages t released (prepared true (t ∷ []))
  join :
      {b : Bool} {ids : List Text}
      → contains t ids ≡ false
      → Stages t (prepared b ids) (prepared b (ids ++ t ∷ []))
  again :
      {b : Bool} {ids : List Text}
      → contains t ids ≡ true
      → Stages t (prepared b ids) (prepared b ids)
  adopt : Stages t absent durable
  adopt_known : Stages t released durable
  protect : Stages t durable durable

pub data Commits (t : Text) : Copy → Copy → Type 0 where
  settle : {b : Bool} {ids : List Text} → contains t ids ≡ true → Commits t (prepared b ids) durable
  settled : Commits t durable durable

pub data Aborts (t : Text) : Copy → Copy → Type 0 where
  leave :
      {b : Bool} {ids : List Text}
      → contains t ids ≡ true
      → set_delete t ids ≢ []
      → Aborts t (prepared b ids) (prepared b (set_delete t ids))
  last :
      {b : Bool} {ids : List Text}
      → contains t ids ≡ true
      → set_delete t ids ≡ []
      → Aborts t (prepared b ids) (baseline b)
  miss : {c : Copy} → is_member t c ≡ false → Aborts t c c

pub copy_of-staged :
    (r : FileRecord) (s : ReplicaStage)
    → r.replica_stage ≡ some s
    → copy_of (some r) ≡ prepared (is_some s.previous) s.transaction_ids
copy_of-staged r s e = rw e

pub copy_of-plain : (r : FileRecord) → r.replica_stage ≡ none → copy_of (some r) ≡ copy_in r.state
copy_of-plain r e = rw e

-- A file that no upload owns may be staged, and is durable afterwards or prepared for the transaction.
pub stable_move :
    (t : Text) (r : FileRecord)
    → r.replica_stage ≡ none
    → belongs_to_upload (some r) ≡ false
    → Stages t (copy_of (some r)) durable
unfolding belongs_to_upload
stable_move t r e b =
    subst (λ c. Stages t c durable) (sym (copy_of-plain r e)) (go r.state (plain _ _ b))
  where
    plain : (a c : Bool) → (a || not c) ≡ false → a ≡ false
    plain a c x = ground (arith, x)

    go : (s : FileState) → is_temporary s ≡ false → Stages t (copy_in s) durable
    go temporary x = cc
    go confirmed x = protect
    go expired x = adopt_known

pub staged_move :
    (t : Text) (r : FileRecord)
    → r.replica_stage ≡ none
    → belongs_to_upload (some r) ≡ false
    → was_confirmed (some r) ≡ false
    → Stages t (copy_of (some r)) (prepared true (t ∷ []))
unfolding belongs_to_upload was_confirmed
staged_move t r e b c =
    subst (λ x. Stages t x (prepared true (t ∷ []))) (sym (copy_of-plain r e))
      (go r.state (plain _ _ b) c)
  where
    plain : (a d : Bool) → (a || not d) ≡ false → a ≡ false
    plain a d x = ground (arith, x)

    go :
        (s : FileState)
        → is_temporary s ≡ false
        → is_confirmed s ≡ false
        → Stages t (copy_in s) (prepared true (t ∷ []))
    go temporary x y = cc
    go confirmed x y = cc
    go expired x y = first_known
