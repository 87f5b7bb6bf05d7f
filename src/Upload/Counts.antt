-- ===== src/Upload/Counts.antt =====
-- About the counts of `inFlightBlocks` (src/storage/uploadSession.ts).
use ipfs_node.Base.Texts.{Text, text_eq, text_eq_iff, text_ne}
use ipfs_node.Base.{
  ℕ, ◌+◌, ◌-◌, Bool, true, false, ◌≡◌, refl, sym, ap, ◌∙◌, inl, inr, Option, none, some, List, [],
  ◌∷◌, if◌then◌else◌, leb, get_or, arith, Bool-cases, leb→le,
}
use ipfs_node.Registry.{contains, no_repeats}
use ipfs_node.Upload.{
  InFlight, references, set_references, drop_references, retain_block, release_block, release_all,
}

-- How often the map counts a block.
abbrev pub count : Text → InFlight → ℕ
count key blocks = get_or (references key blocks) 0

abbrev pub one_if : Bool → ℕ
one_if b = if b then 1 else 0

same_key : (a j k : Text) → text_eq a j ≡ true → text_eq a k ≡ text_eq j k
same_key a j k h = ap (λ t. text_eq t k) ((text_eq_iff a j).0 h)

other_key : (a j k : Text) → text_eq a j ≡ false → text_eq a k ≡ true → text_eq j k ≡ false
other_key a j k h e = elim (Bool-cases (text_eq j k)) [
  | inl t ↦ cc (h, (text_eq_iff a j).1 ((text_eq_iff a k).0 e ∙ sym ((text_eq_iff j k).0 t)))
  | inr t ↦ t
]

pub key_sym : (j k : Text) → text_eq j k ≡ text_eq k j
key_sym j k = elim (Bool-cases (text_eq j k)) [
  | inl t ↦ t ∙ sym ((text_eq_iff k j).1 (sym ((text_eq_iff j k).0 t)))
  | inr t ↦ elim (Bool-cases (text_eq k j)) [
    | inl e ↦ absurd (text_ne j k t (sym ((text_eq_iff k j).0 e)))
    | inr e ↦ t ∙ sym e
  ]
]

count-set :
    (k j : Text) (n : ℕ) (blocks : InFlight)
    → count k (set_references j n blocks) ≡ (if text_eq j k then n else count k blocks)
unfolding references set_references
count-set k j n [] = ground arith
count-set k j n (e ∷ es) =
    let ih = count-set k j n es in
    elim (Bool-cases (text_eq e.0 j)) [
      | inl t ↦ rw t (ground (arith, same_key e.0 j k t))
      | inr t ↦ rw t (ground (arith, ih, other_key e.0 j k t))
    ]

count-drop :
    (k j : Text) (blocks : InFlight)
    → count k (drop_references j blocks) ≡ (if text_eq j k then 0 else count k blocks)
unfolding references drop_references
count-drop k j [] = ground arith
count-drop k j (e ∷ es) =
    let ih = count-drop k j es in
    elim (Bool-cases (text_eq e.0 j)) [
      | inl t ↦ rw t (ground (arith, ih, same_key e.0 j k t))
      | inr t ↦ rw t (ground (arith, ih, other_key e.0 j k t))
    ]

pub count-retain :
    (k j : Text) (blocks : InFlight)
    → count k (retain_block j blocks) ≡ count k blocks + one_if (text_eq j k)
unfolding retain_block
count-retain k j blocks = elim (Bool-cases (text_eq j k)) [
  | inl t ↦ count-set k j (count j blocks + 1) blocks ∙ rw t (rw ((text_eq_iff j k).0 t) refl)
  | inr t ↦ count-set k j (count j blocks + 1) blocks ∙ rw t (omega arith)
]

count-release :
    (k j : Text) (blocks : InFlight)
    → count k (release_block j blocks).0 ≡ count k blocks - one_if (text_eq j k)
unfolding release_block
count-release k j blocks =
    let next = get_or (references j blocks) 1 - 1 in
    elim (Bool-cases (leb next 0)) [
      | inl t ↦ rw t (
          count-drop k j blocks
          ∙ at_key (count k blocks) 0 (λ e. none_left e (less (references j blocks)) t))
      | inr t ↦ rw t (
          count-set k j next blocks
          ∙ at_key (count k blocks) next (λ e.
            less (references j blocks) ∙ ap (λ x. count x blocks - 1) ((text_eq_iff j k).0 e)))
    ]
  where
    less : (o : Option ℕ) → get_or o 1 - 1 ≡ get_or o 0 - 1
    less none = refl
    less (some n) = refl

    none_left :
        text_eq j k ≡ true
        → get_or (references j blocks) 1 - 1 ≡ count j blocks - 1
        → leb (get_or (references j blocks) 1 - 1) 0 ≡ true
        → 0 ≡ count k blocks - 1
    none_left e l t =
        let same : count j blocks ≡ count k blocks =
          ap (λ x. count x blocks) ((text_eq_iff j k).0 e) in
        omega (arith, l, leb→le _ _ t, same)

    at_key :
        (c m : ℕ)
        → (text_eq j k ≡ true → m ≡ c - 1)
        → (if text_eq j k then m else c) ≡ c - one_if (text_eq j k)
    at_key c m f = elim (Bool-cases (text_eq j k)) [
      | inl t ↦ rw t (f t)
      | inr t ↦ rw t (omega arith)
    ]

pub count-release_all :
    (k : Text) (keys : List Text) (blocks : InFlight)
    → no_repeats keys ≡ true
    → count k (release_all keys blocks).0 ≡ count k blocks - one_if (contains k keys)
unfolding release_all contains no_repeats
count-release_all k [] blocks h = omega arith
count-release_all k (j ∷ keys) blocks h =
    let rest = count-release_all k keys (release_block j blocks).0 (ground (arith, h)) in
    let one = count-release k j blocks in
    let same = key_sym j k in
    elim (Bool-cases (text_eq k j)) [
      | inl t ↦
          let j_is_k = (text_eq_iff k j).0 t in
          let gone : contains k keys ≡ false = rw j_is_k (ground (arith, h)) in
          rest ∙ rw (one, same, t, gone) (omega arith)
      | inr t ↦ rest ∙ rw (one, same, t) (omega arith)
    ]
