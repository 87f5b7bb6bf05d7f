-- ===== src/Gc/Tests.antt =====
-- The theorems on plans at a concrete registry, and a run of the planner.
use ipfs_node.Base.Sort.{sort, insert}
use ipfs_node.Base.Int.{minus, from_minus}
use Prim.Native.String.{String}
use ipfs_node.Base.Texts.{text, text_eq, text_ne}
use ipfs_node.Base.{
  ℕ, ◌+◌, ◌≤◌, ◌<◌, ◌≡◌, ◌↔◌, refl, ◌⊎◌, true, Option, none, some, List, [], ◌∷◌, In, here, there,
  Distinct, subst, sym, In-append_left,
}
use ipfs_node.Registry.{
  FileState, temporary, confirmed, FileRecord, Process, contains, is_expired,
  is_admission_in_flight, is_admission_settled, is_active_admission, protected_storage_bytes,
  is_confirmed,
}
use ipfs_node.Gc.Plan.{
  GcPlanInput, GcPlan, plan_garbage_collection, expired_of, alive_of, evict, eviction,
  should_collect, older, cids, still_short, release_estimate, estimate_before, over_watermark,
  reserve_shortage, reserve_with_margin, is_unconfirmed, is_expired_candidate, is_alive_candidate,
}
use ipfs_node.Gc.Safety.{IsReleasable, released, released-IsReleasable, retained_exactly}
use ipfs_node.Gc.Accounts.{freed_bytes, cached_bytes, pinned_bytes, evicted_bytes}
use ipfs_node.Gc.Eviction.{IsShort, eviction_suffices, evicted_needed, evicted_oldest_first}

abbrev file : String → FileState → ℕ → Option ℕ → ℕ → FileRecord
file name state created expires bytes = record {
  cid = text name;
  name = text name;
  state = state;
  created_at = created;
  expires_at = expires;
  confirmed_at = none;
  file_size = bytes;
  stored_bytes = bytes;
  protected_bytes = none;
  pinned = true;
  held_locally = true;
  replicas = [];
  admission_id = none;
  admission_settled_at = none;
  replica_stage = none;
  revision = none;
}

abbrev old_upload : FileRecord
old_upload = file "old" temporary 10 (some 900) 300

abbrev new_upload : FileRecord
new_upload = file "new" temporary 20 (some 900) 300

abbrev abandoned : FileRecord
abandoned = file "abandoned" temporary 5 (some 50) 100

abbrev durable : FileRecord
durable = file "durable" confirmed 1 none 200

abbrev idle_process : Process
idle_process = record { active_admissions = []; active_repairs = [] }

abbrev crowded : GcPlanInput
crowded = record {
  blockstore_bytes = 1000;
  reclaimable_bytes = none;
  watermarks = record { high_watermark_bytes = 900; low_watermark_bytes = 700 };
  available_bytes = some 40;
  reserve_bytes = some 100;
  records = new_upload ∷ durable ∷ old_upload ∷ abandoned ∷ [];
  now = 100;
}

abbrev plan : GcPlan
plan = plan_garbage_collection idle_process crowded

plan_runs :
    (plan.expired ≡ abandoned ∷ [])
    × (plan.evicted ≡ old_upload ∷ [])
    × (plan.retained ≡ new_upload ∷ durable ∷ [])
    × (plan.estimated_bytes_after ≡ 600)
unfolding plan_garbage_collection eviction evict expired_of alive_of should_collect still_short
    release_estimate estimate_before over_watermark reserve_shortage is_unconfirmed
    is_expired_candidate is_alive_candidate sort insert minus from_minus is_expired
    is_admission_in_flight is_admission_settled is_active_admission contains text_eq
    protected_storage_bytes
plan_runs = (refl, refl, refl, refl)

In-head : {r : FileRecord} (rs : List FileRecord) → rs ≡ r ∷ [] → In r rs
In-head {r} rs e = subst (In r) (sym e) here

released-IsReleasable_example : IsReleasable idle_process crowded abandoned
released-IsReleasable_example =
    released-IsReleasable idle_process crowded abandoned
      (In-append_left plan.expired plan.evicted (In-head plan.expired plan_runs.0))

names-Distinct : Distinct (cids crowded.records)
unfolding text_eq
names-Distinct = (
  (text_ne _ _ refl, (text_ne _ _ refl, (text_ne _ _ refl, tt))),
  ((text_ne _ _ refl, (text_ne _ _ refl, tt)), ((text_ne _ _ refl, tt), (tt, tt))),
)

retained_exactly_example :
    (In durable plan.retained ↔ ¬ In durable (released plan))
    × (is_confirmed durable.state ≡ true → In durable plan.retained)
retained_exactly_example = retained_exactly idle_process crowded durable names-Distinct (there here)

collects : should_collect crowded ≡ true
unfolding should_collect over_watermark
collects = refl

eviction_suffices_example :
    (plan.evicted ≡ sort older (alive_of idle_process crowded))
    ⊎ ((900 < 1000 → plan.estimated_bytes_after ≤ 700)
        × ((available reserve : ℕ)
            → crowded.available_bytes ≡ some available
            → crowded.reserve_bytes ≡ some reserve
            → available < reserve
            → reserve_with_margin reserve ≤ available + freed_bytes crowded plan))
eviction_suffices_example = eviction_suffices idle_process crowded collects

evicted_needed_example :
    IsShort crowded
      (cached_bytes crowded + pinned_bytes (expired_of idle_process crowded) + evicted_bytes [])
evicted_needed_example = evicted_needed idle_process crowded [] old_upload [] plan_runs.1

live_new : In new_upload (alive_of idle_process crowded)
unfolding alive_of is_unconfirmed is_alive_candidate is_expired is_admission_in_flight
    is_admission_settled is_active_admission
live_new = here

kept_new : ¬ In new_upload plan.evicted
kept_new m = not_old (subst (In new_upload) plan_runs.1 m)
  where
    not_old : In new_upload (old_upload ∷ []) → ⊥
    not_old (there k) = elim k [ ]

evicted_oldest_first_example : old_upload.created_at ≤ new_upload.created_at
evicted_oldest_first_example =
    evicted_oldest_first idle_process crowded old_upload new_upload
      (In-head plan.evicted plan_runs.1) live_new kept_new
