-- ===== src/Registry/Ownership.antt =====
-- About the ownership sets of the process (src/storage/admissionState.ts,
-- src/storage/repairState.ts).
use ipfs_node.Base.Texts.{Text, text_eq, text_eq_iff}
use ipfs_node.Base.{
  ◌≡◌, ◌≢◌, true, false, not, ◌&&◌, ◌||◌, List, [], ◌∷◌, arith, In, here, there, inl, inr,
  Bool-cases, subst,
}
use ipfs_node.Registry.Types.{
  Process, contains, set_add, set_delete, begin_repair, end_repair, is_active_repair,
}

pub contains-In : (a : Text) (xs : List Text) → contains a xs ≡ true → In a xs
unfolding contains
contains-In a [] h = cc
contains-In a (x ∷ xs) h = elim (Bool-cases (text_eq a x)) [
  | inl e ↦ subst (λ b. In a (b ∷ xs)) ((text_eq_iff a x).0 e) here
  | inr e ↦ there (contains-In a xs (ground arith))
]

pub In-contains : (a : Text) (xs : List Text) → In a xs → contains a xs ≡ true
unfolding contains
In-contains a [] m = elim m [ ]
In-contains a (x ∷ xs) here = ground (arith, text_eq_iff a a)
In-contains a (x ∷ xs) (there m) = ground (arith, In-contains a xs m)

pub contains-set_add :
    (a b : Text) (xs : List Text) → contains b (set_add a xs) ≡ (text_eq b a || contains b xs)
unfolding set_add contains
contains-set_add a b xs = elim (Bool-cases (contains a xs)) [
  | inl old ↦ ground (arith, text_eq_iff b a)
  | inr new ↦ ground (arith, text_eq_iff b a)
]

pub contains-set_delete :
    (a b : Text) (xs : List Text)
    → contains b (set_delete a xs) ≡ (not (text_eq a b) && contains b xs)
unfolding set_delete contains
contains-set_delete a b [] = ground arith
contains-set_delete a b (x ∷ xs) =
    ground (arith, contains-set_delete a b xs, text_eq_iff a b, text_eq_iff a x, text_eq_iff b x)

-- A claim is granted exactly while no repair of the CID runs; after it the CID is claimed, a second
-- claim is refused, and every other CID is as before. The release undoes it.
pub begin_repair_exclusive :
    (cid : Text) (p : Process)
    → ((begin_repair cid p).1 ≡ not (is_active_repair p cid))
      × (is_active_repair (begin_repair cid p).0 cid ≡ true)
      × ((begin_repair cid (begin_repair cid p).0).1 ≡ false)
      × (is_active_repair (end_repair cid (begin_repair cid p).0) cid ≡ false)
      × ((other : Text)
          → other ≢ cid
          → (is_active_repair (begin_repair cid p).0 other ≡ is_active_repair p other)
            × (is_active_repair (end_repair cid p) other ≡ is_active_repair p other))
unfolding begin_repair end_repair is_active_repair
begin_repair_exclusive cid p =
    let xs = p.active_repairs in
    let self = text_eq_iff cid cid in
    let added = contains-set_add cid cid xs in
    (
      ground arith,
      ground (arith, added, self),
      ground (arith, added, self),
      ground (
        arith,
        added,
        self,
        contains-set_delete cid cid xs,
        contains-set_delete cid cid (set_add cid xs),
      ),
      λ other ne. (
        ground (arith, contains-set_add cid other xs, text_eq_iff other cid),
        ground (arith, contains-set_delete cid other xs, text_eq_iff cid other),
      ),
    )
