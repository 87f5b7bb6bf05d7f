-- ===== src/Gc/Eviction.antt =====
-- About the eviction loop of `planGarbageCollection` (src/storage/gc.ts): where it stops, that it evicts
-- nothing needlessly, and its order.
use ipfs_node.Base.Sort.{sort, sort-Sorted, sort-In, Sorted, Sorted-append}
use ipfs_node.Base.Int.{ℤ, pos, pos_part, neg_part, minus, ltz, from_minus, from_minus_parts}
use ipfs_node.Base.{
  ℕ, ◌+◌, ◌≤◌, ◌<◌, ◌≡◌, refl, ap, subst, In-append, ◌⊎◌, inl, inr, Bool, true, false, ◌&&◌, ltb,
  Option, none, some, List, [], ◌∷◌, ◌++◌, arith, Bool-cases, In, get_or,
}
use ipfs_node.Registry.{FileRecord, Process, protected_storage_bytes}
use ipfs_node.Gc.Plan.{
  GcPlanInput, plan_garbage_collection, expired_of, alive_of, evict, eviction, should_collect,
  older, still_short, release_estimate, estimate_before, reserve_with_margin, reserve_shortage,
  over_watermark,
}
use ipfs_node.Gc.Accounts.{
  cached_bytes, pinned_bytes, evicted_bytes, freed_bytes, one_sign, estimate_after, before,
  freed_before, final_parts,
}

evict_stops :
    (short : ℤ → Bool) (z : ℤ) (rs : List FileRecord)
    → ((evict short z rs).0 ≡ rs) ⊎ (short (evict short z rs).1 ≡ false)
unfolding evict
evict_stops short z [] = inl refl
evict_stops short z (r ∷ rs) = elim (Bool-cases (short z)) [
  | inl e ↦ rw e (ground (arith, evict_stops short (minus z (protected_storage_bytes r)) rs))
  | inr e ↦ rw e (inr e)
]

not_short-low :
    (input : GcPlanInput) (z : ℤ)
    → still_short input z ≡ false
    → input.watermarks.high_watermark_bytes < input.blockstore_bytes
    → pos_part z ≤ input.watermarks.low_watermark_bytes
unfolding still_short
not_short-low input z h over = ground (arith, one_sign z)

not_short-reserve :
    (input : GcPlanInput) (z : ℤ) (freed available reserve : ℕ)
    → still_short input z ≡ false
    → pos_part z + freed ≡ input.blockstore_bytes + neg_part z
    → input.available_bytes ≡ some available
    → input.reserve_bytes ≡ some reserve
    → available < reserve
    → reserve_with_margin reserve ≤ available + freed
unfolding still_short
not_short-reserve input z freed available reserve h parts a r under =
    ground (arith, from_minus_parts input.blockstore_bytes z)

plan_stops :
    (p : Process) (input : GcPlanInput)
    → should_collect input ≡ true
    → ((plan_garbage_collection p input).evicted ≡ sort older (alive_of p input))
      ⊎ (still_short input (eviction p input).1 ≡ false)
unfolding plan_garbage_collection eviction
plan_stops p input h = rw h (evict_stops (still_short input) _ (sort older (alive_of p input)))

-- Once a run is to collect, the plan evicts until the shortage is over: it ends with every live
-- candidate evicted, or with the estimate at the low watermark (where the high one was passed) and the
-- free space back above the reserve and its margin (where it had fallen below the reserve).
pub eviction_suffices :
    (p : Process) (input : GcPlanInput)
    → should_collect input ≡ true
    → let plan = plan_garbage_collection p input in
      (plan.evicted ≡ sort older (alive_of p input))
      ⊎ ((input.watermarks.high_watermark_bytes < input.blockstore_bytes
            → plan.estimated_bytes_after ≤ input.watermarks.low_watermark_bytes)
          × ((available reserve : ℕ)
              → input.available_bytes ≡ some available
              → input.reserve_bytes ≡ some reserve
              → available < reserve
              → reserve_with_margin reserve ≤ available + freed_bytes input plan))
unfolding plan_garbage_collection
eviction_suffices p input h = elim (plan_stops p input h) [
  | inl e ↦ inl e
  | inr e ↦ inr (
    not_short-low input (eviction p input).1 e,
    λ a r ea er under.
        not_short-reserve input (eviction p input).1 _ a r e (final_parts p input) ea er under,
  )
]

evict_needed :
    (short : ℤ → Bool) (z : ℤ) (rs xs : List FileRecord) (r : FileRecord) (ys : List FileRecord)
    → (evict short z rs).0 ≡ xs ++ r ∷ ys
    → short (estimate_after z xs) ≡ true
unfolding evict estimate_after
evict_needed short z [] [] r ys e = cc
evict_needed short z [] (x ∷ xs) r ys e = cc
evict_needed short z (q ∷ rs) [] r ys e = ground arith
evict_needed short z (q ∷ rs) (x ∷ xs) r ys e =
    ground (arith, evict_needed short (minus z (protected_storage_bytes q)) rs xs r ys)

-- Space is short once this many bytes have come back: of the blockstore, whose size passed the high
-- watermark, more than the low watermark is left; or the free space, which had fallen below the
-- reserve, has not reached the reserve and its margin.
pub data IsShort (input : GcPlanInput) (freed : ℕ) : Type 0 where
  over_low :
      input.watermarks.high_watermark_bytes < input.blockstore_bytes
      → input.watermarks.low_watermark_bytes + freed < input.blockstore_bytes
      → IsShort input freed
  under_reserve :
      {available reserve : ℕ}
      → input.available_bytes ≡ some available
      → input.reserve_bytes ≡ some reserve
      → available < reserve
      → available + freed < reserve_with_margin reserve
      → IsShort input freed

shortage_left :
    (shortage : Option ℤ) (z : ℤ) (total freed : ℕ)
    → pos_part z + freed ≡ total + neg_part z
    → ltz (from_minus total z) (get_or shortage (pos 0)) ≡ true
    → (t : ℤ) × (shortage ≡ some t) × (freed + neg_part t < pos_part t)
shortage_left none z total freed parts h =
    absurd (ground (arith, h, parts, from_minus_parts total z))
shortage_left (some t) z total freed parts h =
    (t, refl, ground (arith, h, parts, from_minus_parts total z, one_sign t))

reserve-IsShort :
    (input : GcPlanInput) (a r : Option ℕ) (t : ℤ) (freed : ℕ)
    → input.available_bytes ≡ a
    → input.reserve_bytes ≡ r
    → reserve_shortage a r ≡ some t
    → freed + neg_part t < pos_part t
    → IsShort input freed
unfolding reserve_shortage
reserve-IsShort input none r t freed ea er e h = cc e
reserve-IsShort input (some a) none t freed ea er e h = cc e
reserve-IsShort input (some a) (some r) t freed ea er e h =
    under_reserve ea er (ground (arith, e)) (ground (arith, e, h))

still_short-IsShort :
    (input : GcPlanInput) (z : ℤ) (freed : ℕ)
    → pos_part z + freed ≡ input.blockstore_bytes + neg_part z
    → still_short input z ≡ true
    → IsShort input freed
unfolding still_short over_watermark
still_short-IsShort input z freed parts h =
    elim (Bool-cases (
      ltb input.watermarks.high_watermark_bytes input.blockstore_bytes
      && ltz (pos input.watermarks.low_watermark_bytes) z)) [
        | inl o ↦ over_low (ground (arith, o)) (ground (arith, o, parts, one_sign z))
        | inr o ↦
            let (t, e, q) =
              shortage_left (reserve_shortage input.available_bytes input.reserve_bytes) z
                input.blockstore_bytes freed parts (ground (arith, o, h)) in
            reserve-IsShort input input.available_bytes input.reserve_bytes t freed refl refl e q
      ]

-- No file is evicted needlessly: before each eviction, space is still short when the read cache,
-- the pins of the expired files and the files evicted before it have come back. That is, the
-- blockstore had passed its high watermark and is still above the low one; or the free space had
-- fallen below the reserve and is still below the reserve and its margin.
pub evicted_needed :
    (p : Process) (input : GcPlanInput) (xs : List FileRecord) (r : FileRecord)
    (ys : List FileRecord)
    → (plan_garbage_collection p input).evicted ≡ xs ++ r ∷ ys
    → IsShort input (cached_bytes input + pinned_bytes (expired_of p input) + evicted_bytes xs)
unfolding plan_garbage_collection eviction
evicted_needed p input xs r ys e = elim (Bool-cases (should_collect input)) [
  | inl h ↦
      still_short-IsShort input (estimate_after (before p input) xs) _ (freed_before p input xs) (
        evict_needed (still_short input) (before p input) (sort older (alive_of p input)) xs r ys
          (rw h at e))
  | inr h ↦ no_split xs (rw h at e)
]
  where
    no_split : {A : Type 0} (xs : List FileRecord) → [] ≡ xs ++ r ∷ ys → A
    no_split [] e = cc e
    no_split (x ∷ xs) e = cc e

evict_prefix :
    (short : ℤ → Bool) (z : ℤ) (rs : List FileRecord)
    → (ys : List FileRecord) × (rs ≡ (evict short z rs).0 ++ ys)
unfolding evict
evict_prefix short z [] = ([], refl)
evict_prefix short z (r ∷ rs) = elim (Bool-cases (short z)) [
  | inl e ↦
      let (ys, q) = evict_prefix short (minus z (protected_storage_bytes r)) rs in
      (ys, rw e (ap (λ t. r ∷ t) q))
  | inr e ↦ (r ∷ rs, rw e)
]

older_order : (xs : List FileRecord) → Sorted older (sort older xs)
older_order = sort-Sorted older (λ a b h. ground arith) (λ a b c h k. ground arith)

-- A live candidate that the plan passes over is not older than one that it evicts.
pub evicted_oldest_first :
    (p : Process) (input : GcPlanInput) (a b : FileRecord)
    → In a (plan_garbage_collection p input).evicted
    → In b (alive_of p input)
    → ¬ In b (plan_garbage_collection p input).evicted
    → a.created_at ≤ b.created_at
unfolding plan_garbage_collection eviction
evicted_oldest_first p input a b m k n = elim (Bool-cases (should_collect input)) [
  | inl h ↦
      let live = sort older (alive_of p input) in
      let z = release_estimate (estimate_before input) (expired_of p input) in
      let (ys, q) = evict_prefix (still_short input) z live in
      elim (In-append _ ys (subst (λ xs. In b xs) q (sort-In older (alive_of p input) k))) [
        | inl gone ↦ absurd (n (rw h gone))
        | inr left ↦
            let ordered =
              Sorted-append older _ ys (subst (Sorted older) q (older_order (alive_of p input)))
                (rw h at m) left in
            ground arith
      ]
  | inr h ↦ elim (rw h at m) [ ]
]
