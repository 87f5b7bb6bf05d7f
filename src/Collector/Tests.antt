-- ===== src/Collector/Tests.antt =====
-- The theorems on collection runs at a concrete host.
use ipfs_node.Base.Texts.{text, text_eq}
use ipfs_node.Base.{refl, true, false, none, some, [], ◌∷◌, ◌⊎◌}
use ipfs_node.Registry.{FileRecord, confirmed, expired, is_file_record, is_replica_stage}
use ipfs_node.Host.{ok}
use ipfs_node.Host.Laws.{Post, on_ok, Same}
use ipfs_node.FileRegistry.{key, decode_record}
use ipfs_node.Gc.Plan.{GcPlan, watermark}
use ipfs_node.Lifecycle.Frame.{Stays, unchanged}
use ipfs_node.Lifecycle.Model.{Toy, toy, toy_view, toy_laws, update}
use ipfs_node.Lifecycle.Steps.{record_at}
use ipfs_node.Collector.{Collector, GcRunOptions, deleted, run_garbage_collection, release_one}
use ipfs_node.Collector.Steps.{CollectorLaws, Durable}
use ipfs_node.Collector.Survival.{run_garbage_collection-Stays}
use ipfs_node.Collector.Release.{Planned, Settled, release_one-Settled}

abbrev durable_file : FileRecord
durable_file = record {
  cid = text "f";
  name = text "f";
  state = confirmed;
  created_at = 1;
  expires_at = none;
  confirmed_at = some 1;
  file_size = 5;
  stored_bytes = 5;
  protected_bytes = none;
  pinned = true;
  held_locally = true;
  replicas = [];
  admission_id = none;
  admission_settled_at = none;
  replica_stage = none;
  revision = none;
}

abbrev old_file : FileRecord
old_file = record durable_file { cid = text "g"; state = expired; confirmed_at = none }

abbrev node : Toy
node = record {
  values =
      update (key (text "g")) (some old_file)
        (update (key (text "f")) (some durable_file) (λ j. none));
  pins = λ j. true;
  faults = true ∷ [];
}

abbrev collector : Collector toy
collector = record {
  is_pinned = λ k w. (w, ok (w.pins k));
  query = λ p w. (w, ((key (text "f"), durable_file) ∷ (key (text "g"), old_file) ∷ [], none));
  is_enoent = λ e. false;
  gc = λ w. (w, ok (deleted (text "x") ∷ []));
  with_lease = λ f w. f w;
  others = λ w. w;
  process = λ w. record { active_admissions = []; active_repairs = [] };
}

untouched_world : (w : Toy) → Same toy toy_view w w
untouched_world w = record { same_value = λ k. refl; same_pin = λ k. refl }

collector_laws : CollectorLaws toy toy_view collector
collector_laws = record {
  is_pinned_lem = λ k w. on_ok (λ e. e, untouched_world w);
  query_lem = λ p w. untouched_world w;
}

abbrev forced_run : GcRunOptions
forced_run = record {
  watermarks = record { high_watermark_bytes = 10; low_watermark_bytes = 5 };
  blockstore_bytes = 20;
  reclaimable_bytes = none;
  available_bytes = none;
  reserve_bytes = none;
  dry_run = false;
  force = true;
  now = 9;
}

abbrev plan : GcPlan
plan = record {
  should_collect = true;
  trigger = watermark;
  expired = old_file ∷ [];
  evicted = [];
  retained = durable_file ∷ [];
  estimated_bytes_after = 3;
}

file_f-Durable : Durable toy toy_view (text "f") node
unfolding record_at update text_eq key decode_record is_file_record is_replica_stage
file_f-Durable = record { file = durable_file; found = refl; is_durable = refl; pinned = refl }

run_garbage_collection-Stays_example :
    Stays toy toy_view (text "f") node (run_garbage_collection toy collector forced_run node)
run_garbage_collection-Stays_example =
    run_garbage_collection-Stays toy toy_view (text "f") toy_laws collector collector_laws
      (λ w. unchanged toy toy_view (text "f") w) (λ w. on_ok (unchanged toy toy_view (text "f") w))
      forced_run node file_f-Durable

release_one-Settled_example :
    Post
      (Settled toy toy_view collector old_file node)
      (λ e after. Same toy toy_view node after ⊎ Planned toy toy_view collector old_file node)
      (release_one toy collector old_file node)
release_one-Settled_example = release_one-Settled toy toy_view collector toy_laws old_file node
