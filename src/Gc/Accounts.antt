-- ===== src/Gc/Accounts.antt =====
-- About the accounting of the estimate in `planGarbageCollection` (src/storage/gc.ts).
use ipfs_node.Base.Sort.{sort}
use ipfs_node.Base.Int.{ℤ, pos, negsuc, pos_part, neg_part, minus, minus_parts}
use ipfs_node.Base.{
  ℕ, ◌+◌, ◌-◌, min, ◌≡◌, refl, ◌⊎◌, inl, inr, Bool, List, [], ◌∷◌, arith, Bool-cases, get_or,
  if◌then◌else◌,
}
use ipfs_node.Registry.{FileRecord, Process, protected_storage_bytes}
use ipfs_node.Gc.Plan.{
  GcPlanInput, GcPlan, plan_garbage_collection, expired_of, alive_of, evict, eviction,
  should_collect, older, still_short, release_estimate, estimate_before,
}

-- Bytes that releasing pins gives back.
pub pinned_bytes : List FileRecord → ℕ
pinned_bytes [] = 0
pinned_bytes (r ∷ rs) = (if r.pinned then protected_storage_bytes r else 0) + pinned_bytes rs

pub evicted_bytes : List FileRecord → ℕ
evicted_bytes [] = 0
evicted_bytes (r ∷ rs) = protected_storage_bytes r + evicted_bytes rs

abbrev pub cached_bytes : GcPlanInput → ℕ
cached_bytes input = min input.blockstore_bytes (pos_part (get_or input.reclaimable_bytes (pos 0)))

-- Everything that the plan expects to come back: read cache, expired pins, evicted files.
abbrev pub freed_bytes : GcPlanInput → GcPlan → ℕ
freed_bytes input plan = cached_bytes input + pinned_bytes plan.expired + evicted_bytes plan.evicted

pub one_sign : (z : ℤ) → (pos_part z ≡ 0) ⊎ (neg_part z ≡ 0)
one_sign (pos n) = inr refl
one_sign (negsuc n) = inl refl

pub release_estimate_parts :
    (z : ℤ) (rs : List FileRecord)
    → pos_part (release_estimate z rs) + neg_part z + pinned_bytes rs
      ≡ pos_part z + neg_part (release_estimate z rs)
unfolding release_estimate pinned_bytes
release_estimate_parts z [] = omega arith
release_estimate_parts z (r ∷ rs) = ground (
  arith,
  release_estimate_parts (minus z (protected_storage_bytes r)) rs,
  release_estimate_parts z rs,
  minus_parts z (protected_storage_bytes r),
)

evict_parts :
    (short : ℤ → Bool) (z : ℤ) (rs : List FileRecord)
    → pos_part (evict short z rs).1 + neg_part z + evicted_bytes (evict short z rs).0
      ≡ pos_part z + neg_part (evict short z rs).1
unfolding evict evicted_bytes
evict_parts short z [] = omega arith
evict_parts short z (r ∷ rs) = elim (Bool-cases (short z)) [
  | inl e ↦ rw e (
      omega (
        arith,
        evict_parts short (minus z (protected_storage_bytes r)) rs,
        minus_parts z (protected_storage_bytes r),
      ))
  | inr e ↦ rw e (omega arith)
]

pub final_parts :
    (p : Process) (input : GcPlanInput)
    → let plan = plan_garbage_collection p input in
      pos_part (eviction p input).1 + freed_bytes input plan
      ≡ input.blockstore_bytes + neg_part (eviction p input).1
unfolding plan_garbage_collection eviction estimate_before evicted_bytes
final_parts p input =
    let z = release_estimate (estimate_before input) (expired_of p input) in
    let a = release_estimate_parts (estimate_before input) (expired_of p input) in
    elim (Bool-cases (should_collect input)) [
      | inl e ↦
          rw e (omega (arith, a, evict_parts (still_short input) z (sort older (alive_of p input))))
      | inr e ↦ rw e (omega (arith, a))
    ]

-- The reported estimate is the blockstore size less the read cache, the pins of expired files and the
-- evicted files, and not below zero.
pub estimated_bytes_after_lem :
    (p : Process) (input : GcPlanInput)
    → (plan_garbage_collection p input).estimated_bytes_after
      ≡ input.blockstore_bytes - freed_bytes input (plan_garbage_collection p input)
unfolding plan_garbage_collection
estimated_bytes_after_lem p input =
    omega (arith, final_parts p input, one_sign (eviction p input).1)

-- What `k` evictions from the front of the list leave of the estimate.
unfoldable pub estimate_after : ℤ → List FileRecord → ℤ
estimate_after z [] = z
estimate_after z (r ∷ rs) = estimate_after (minus z (protected_storage_bytes r)) rs

estimate_after_parts :
    (z : ℤ) (rs : List FileRecord)
    → pos_part (estimate_after z rs) + neg_part z + evicted_bytes rs
      ≡ pos_part z + neg_part (estimate_after z rs)
unfolding estimate_after evicted_bytes
estimate_after_parts z [] = omega arith
estimate_after_parts z (r ∷ rs) = omega (
  arith,
  estimate_after_parts (minus z (protected_storage_bytes r)) rs,
  minus_parts z (protected_storage_bytes r),
)

-- The estimate that the loop over the live files starts with.
abbrev pub before : Process → GcPlanInput → ℤ
before p input = release_estimate (estimate_before input) (expired_of p input)

pub freed_before :
    (p : Process) (input : GcPlanInput) (xs : List FileRecord)
    → pos_part (estimate_after (before p input) xs)
        + (cached_bytes input + pinned_bytes (expired_of p input) + evicted_bytes xs)
      ≡ input.blockstore_bytes + neg_part (estimate_after (before p input) xs)
unfolding estimate_before
freed_before p input xs = omega (
  arith,
  estimate_after_parts (before p input) xs,
  release_estimate_parts (estimate_before input) (expired_of p input),
)
