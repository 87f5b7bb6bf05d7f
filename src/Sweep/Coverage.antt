-- ===== src/Sweep/Coverage.antt =====
-- About what the passes of one sweep visit (src/storage/sweep.ts).
use ipfs_node.Base.Sort.{sort-In, Ascending}
use ipfs_node.Base.Texts.{Text, text_lt}
use ipfs_node.Base.{
  ℕ, suc, ◌+◌, ◌≤◌, ◌≡◌, refl, sym, subst, Bool, true, false, ◌⊎◌, inl, inr, Option, none, some,
  List, [], ◌∷◌, ◌++◌, if◌then◌else◌, arith, length, take, drop, map, In, In-map, map-In, All,
  Distinct, leb, In-append_left, In-append_right, length-take, length-drop,
}
use ipfs_node.Sweep.{SweepName, repair, demote, ordered, start_of, batch_at, sweep_batch}
use ipfs_node.Sweep.Order.{
  ordered-Ascending, drop-start_of, last-before, In-after, In-take-drop, Ascending-drop,
}

module _ {ℓ} {T : Type ℓ} (cid : T → Text) where
  -- Nothing before the cursor is still to come.
  abbrev pub Pending : Option Text → Text → Type 0
  Pending none k = Unit
  Pending (some c) k = text_lt c k ≡ true

  still_to_come :
      (xs : List T) (cursor : Option Text) (y : T)
      → Ascending text_lt (map cid xs)
      → In y xs
      → Pending cursor (cid y)
      → In y (drop (start_of cid xs cursor) xs)
  unfolding start_of
  still_to_come xs none y s m h = m
  still_to_come xs (some c) y s m h =
      subst (λ l. In y l) (sym (drop-start_of cid c xs s)) (In-after cid c xs y m h)

  length-drop_pos : {y : T} (xs : List T) → In y xs → 1 ≤ length xs
  length-drop_pos [] m = elim m [ ]
  length-drop_pos (x ∷ xs) m = omega arith

  taken_or_next :
      (n start : ℕ) (xs : List T) (y : T)
      → Ascending text_lt (map cid xs)
      → In y (drop start xs)
      → let b = batch_at cid (suc n) xs start in
        In y b.records
        ⊎ ((b.cycle_completed ≡ false)
            × ((d : Text) × (b.next_cursor ≡ some d) × (text_lt d (cid y) ≡ true)))
  unfolding batch_at
  taken_or_next n start xs y s m =
      let rest = drop start xs in
      let within : leb (length xs) start ≡ false =
        ground (arith, length-drop start xs, length-drop_pos rest m) in
      elim (In-take-drop cid (suc n) rest y m) [
        | inl k ↦ rw within (inl k)
        | inr k ↦
            let unfinished : leb (length xs) (start + length (take (suc n) rest)) ≡ false = ground (
              arith,
              length-take (suc n) rest,
              length-drop start xs,
              length-drop (suc n) rest,
              length-drop_pos (drop (suc n) rest) k,
            ) in
            rw (within, unfinished)
              (inr (refl, last-before cid n rest y (Ascending-drop cid start xs s) k))
      ]

  -- What a pass returns for a CID that it may still owe a visit.
  pub sweep_batch_covers :
      (sweep : SweepName) (records : List T) (cursor : Option Text) (y : T)
      → Distinct (map cid records)
      → In y records
      → Pending cursor (cid y)
      → let b = sweep_batch cid sweep records cursor in
        In y b.records
        ⊎ ((b.cycle_completed ≡ false)
            × ((d : Text) × (b.next_cursor ≡ some d) × (text_lt d (cid y) ≡ true)))
  unfolding sweep_batch ordered
  sweep_batch_covers repair records cursor y d m h =
      let s = ordered-Ascending cid records d in
      taken_or_next 49 (start_of cid (ordered cid records) cursor) (ordered cid records) y s
        (still_to_come (ordered cid records) cursor y s (sort-In _ records m) h)
  sweep_batch_covers demote records cursor y d m h =
      let s = ordered-Ascending cid records d in
      taken_or_next 199 (start_of cid (ordered cid records) cursor) (ordered cid records) y s
        (still_to_come (ordered cid records) cursor y s (sort-In _ records m) h)

  -- The passes of one cycle over the records as each pass finds them, and what they return.
  unfoldable pub visited : SweepName → Option Text → List (List T) → List T
  visited sweep cursor [] = []
  visited sweep cursor (records ∷ later) =
      let b = sweep_batch cid sweep records cursor in
      let rest = visited sweep b.next_cursor later in
      b.records ++ (if b.cycle_completed then [] else rest)

  unfoldable pub completes : SweepName → Option Text → List (List T) → Bool
  completes sweep cursor [] = false
  completes sweep cursor (records ∷ later) =
      let b = sweep_batch cid sweep records cursor in
      let rest = completes sweep b.next_cursor later in if b.cycle_completed then true else rest

  -- Each pass finds the records with distinct CIDs, and one of them has the CID.
  abbrev pub Found : Text → List (List T) → Type 0
  Found k passes = All (λ records. Distinct (map cid records) × In k (map cid records)) passes

  In-append_cids : {k : Text} (xs ys : List T) → In k (map cid ys) → In k (map cid (xs ++ ys))
  In-append_cids {k} xs ys m =
      let (y, n, e) = map-In cid ys m in
      subst (λ c. In c (map cid (xs ++ ys))) e (In-map cid (xs ++ ys) (In-append_right xs ys n))

  visits :
      (sweep : SweepName) (cursor : Option Text) (passes : List (List T)) (k : Text)
      → Pending cursor k
      → Found k passes
      → completes sweep cursor passes ≡ true
      → In k (map cid (visited sweep cursor passes))
  unfolding visited completes
  visits sweep cursor [] k h f c = cc
  visits sweep cursor (records ∷ later) k h f c =
      let b = sweep_batch cid sweep records cursor in
      let rest = if b.cycle_completed then [] else visited sweep b.next_cursor later in
      let (x, m, e) = map-In cid records f.0.1 in
      elim (sweep_batch_covers sweep records cursor x f.0.0 m (subst (Pending cursor) (sym e) h)) [
        | inl n ↦
            subst (λ t. In t (map cid (b.records ++ rest))) e
              (In-map cid (b.records ++ rest) (In-append_left b.records rest n))
        | inr q ↦
            let (unfinished, (d, next, before)) = q in
            let owed =
              subst (λ t. Pending t k) (sym next) (subst (λ t. text_lt d t ≡ true) e before) in
            rw unfinished (
              In-append_cids b.records (visited sweep b.next_cursor later)
                (visits sweep b.next_cursor later k owed f.1 (rw unfinished at c)))
      ]

  -- A sweep that starts at the front and runs until a batch reports the cycle completed has visited
  -- every CID that each of its passes found among records with distinct CIDs.
  pub sweep_is_complete :
      (sweep : SweepName) (passes : List (List T)) (k : Text)
      → All (λ records. Distinct (map cid records) × In k (map cid records)) passes
      → completes sweep none passes ≡ true
      → In k (map cid (visited sweep none passes))
  sweep_is_complete sweep passes k f c = visits sweep none passes k tt f c
