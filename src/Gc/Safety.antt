-- ===== src/Gc/Safety.antt =====
-- About what `planGarbageCollection` (src/storage/gc.ts) selects.
use ipfs_node.Base.Sort.{sort, In-sort}
use ipfs_node.Base.Int.{ℤ, minus}
use ipfs_node.Base.Texts.{Text}
use ipfs_node.Base.{
  ◌≡◌, ◌↔◌, refl, sym, subst, Bool, true, false, not, ◌⊎◌, inl, inr, none, List, [], ◌∷◌, ◌++◌,
  arith, In, here, there, Bool-cases, In-filter, filter-In, In-append, In-map, filter, All-In,
  Distinct, Bool-cases,
}
use ipfs_node.Registry.{
  FileRecord, Process, contains, is_confirmed, is_expired, is_admission_in_flight,
  protected_storage_bytes,
}
use ipfs_node.Registry.Ownership.{contains-In, In-contains}
use ipfs_node.Gc.Plan.{
  GcPlanInput, GcPlan, plan_garbage_collection, is_unconfirmed, is_expired_candidate,
  is_alive_candidate, expired_of, alive_of, evict, eviction, should_collect, older, cids,
  still_short,
}

-- What the plan may do with a record of the registry.
pub record IsReleasable (p : Process) (input : GcPlanInput) (r : FileRecord) : Type 0 where
  pub known : In r input.records
  pub unconfirmed : is_confirmed r.state ≡ false
  pub not_in_flight : is_admission_in_flight p r ≡ false
  pub reason :
      (is_expired r input.now ≡ true) ⊎ ((should_collect input ≡ true) × (r.replica_stage ≡ none))

abbrev pub released : GcPlan → List FileRecord
released plan = plan.expired ++ plan.evicted

expired_of-IsReleasable :
    (p : Process) (input : GcPlanInput) (r : FileRecord)
    → In r (expired_of p input)
    → IsReleasable p input r
unfolding expired_of is_unconfirmed is_expired_candidate
expired_of-IsReleasable p input r m =
    let a = In-filter (is_expired_candidate p input.now) (filter is_unconfirmed input.records) m in
    let b = In-filter is_unconfirmed input.records a.0 in
    record {
      known = b.0;
      unconfirmed = ground (arith, b.1);
      not_in_flight = ground (arith, a.1);
      reason = inl (ground (arith, a.1));
    }

In-cons_map :
    {r x : FileRecord} {ys zs : List FileRecord}
    → (In r ys → In r zs)
    → In r (x ∷ ys)
    → In r (x ∷ zs)
In-cons_map f here = here
In-cons_map f (there m) = there (f m)

pub In-evict :
    (short : ℤ → Bool) (estimate : ℤ) (r : FileRecord) (rs : List FileRecord)
    → In r (evict short estimate rs).0
    → In r rs
unfolding evict
In-evict short estimate r [] m = elim m [ ]
In-evict short estimate r (x ∷ xs) m = elim (Bool-cases (short estimate)) [
  | inl e ↦
      In-cons_map (In-evict short (minus estimate (protected_storage_bytes x)) r xs)
        (rw (e, evict) at m)
  | inr e ↦ elim (rw (e, evict) at m) [ ]
]

alive_of-IsReleasable :
    (p : Process) (input : GcPlanInput) (r : FileRecord)
    → should_collect input ≡ true
    → In r (alive_of p input)
    → IsReleasable p input r
unfolding alive_of is_unconfirmed is_alive_candidate
alive_of-IsReleasable p input r h m =
    let a = In-filter (is_alive_candidate p input.now) (filter is_unconfirmed input.records) m in
    let b = In-filter is_unconfirmed input.records a.0 in
    record {
      known = b.0;
      unconfirmed = ground (arith, b.1);
      not_in_flight = ground (arith, a.1);
      reason = inr (h, ground (arith, a.1));
    }

eviction-IsReleasable :
    (p : Process) (input : GcPlanInput) (r : FileRecord)
    → In r (eviction p input).0
    → IsReleasable p input r
unfolding eviction
eviction-IsReleasable p input r m = elim (Bool-cases (should_collect input)) [
  | inl e ↦ alive_of-IsReleasable p input r e (
      In-sort older (alive_of p input)
        (In-evict (still_short input) _ r (sort older (alive_of p input)) (rw e at m)))
  | inr e ↦ elim (rw e at m) [ ]
]

-- Whatever a plan releases is a registered file that is not confirmed and that no upload owns; it has
-- outlived its lifetime, or space is short and it is no prepared copy.
pub released-IsReleasable :
    (p : Process) (input : GcPlanInput) (r : FileRecord)
    → In r (released (plan_garbage_collection p input))
    → IsReleasable p input r
unfolding plan_garbage_collection
released-IsReleasable p input r m = elim (In-append (expired_of p input) _ m) [
  | inl k ↦ expired_of-IsReleasable p input r k
  | inr k ↦ eviction-IsReleasable p input r k
]

same_record :
    (rs : List FileRecord) (a b : FileRecord)
    → Distinct (cids rs)
    → In a rs
    → In b rs
    → a.cid ≡ b.cid
    → a ≡ b
same_record [] a b d m k e = elim m [ ]
same_record (x ∷ xs) _ _ d here here e = refl
same_record (x ∷ xs) _ b d here (there k) e =
    absurd (All-In _ (cids xs) d.0 (In-map (λ r. r.cid) xs k) e)
same_record (x ∷ xs) a _ d (there m) here e =
    absurd (All-In _ (cids xs) d.0 (In-map (λ r. r.cid) xs m) (sym e))
same_record (x ∷ xs) a b d (there m) (there k) e = same_record xs a b d.1 m k e

-- The record behind a CID of the list.
behind_cid :
    (c : Text) (rs : List FileRecord) → In c (cids rs) → (r : FileRecord) × In r rs × (r.cid ≡ c)
behind_cid c [] m = elim m [ ]
behind_cid c (x ∷ xs) m = elim (head_or_tail m) [
  | inl e ↦ (x, here, sym e)
  | inr k ↦ let (r, n, e) = behind_cid c xs k in (r, there n, e)
]
  where
    head_or_tail : {d : Text} {ds : List Text} → In c (d ∷ ds) → (c ≡ d) ⊎ In c ds
    head_or_tail here = inl refl
    head_or_tail (there k) = inr k

-- Where the records have distinct CIDs, a record is retained exactly if it is not released, so the
-- plan loses none; and a confirmed file is always retained.
pub retained_exactly :
    (p : Process) (input : GcPlanInput) (r : FileRecord)
    → Distinct (cids input.records)
    → In r input.records
    → (In r (plan_garbage_collection p input).retained
        ↔ ¬ In r (released (plan_garbage_collection p input)))
      × (is_confirmed r.state ≡ true → In r (plan_garbage_collection p input).retained)
unfolding plan_garbage_collection
retained_exactly p input r d m =
    ((drops, keeps), λ c. keeps (λ k. cc (c, (released-IsReleasable p input r k).unconfirmed)))
  where
    gone : List FileRecord
    gone = released (plan_garbage_collection p input)

    drops : In r (plan_garbage_collection p input).retained → ¬ In r gone
    drops kept k = cc (
      (In-filter (λ q. not (contains q.cid (cids gone))) input.records kept).1,
      In-contains r.cid (cids gone) (In-map (λ q. q.cid) gone k),
    )

    stays : ¬ In r gone → contains r.cid (cids gone) ≡ true → ⊥
    stays n c =
        let (q, k, e) = behind_cid r.cid gone (contains-In r.cid (cids gone) c) in
        n (
          subst (λ x. In x gone)
            (same_record input.records q r d (released-IsReleasable p input q k).known m e) k)

    keeps : ¬ In r gone → In r (plan_garbage_collection p input).retained
    keeps n = elim (Bool-cases (contains r.cid (cids gone))) [
      | inl c ↦ absurd (stays n c)
      | inr c ↦ filter-In (λ q. not (contains q.cid (cids gone))) input.records m (rw c)
    ]
