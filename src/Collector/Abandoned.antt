-- ===== src/Collector/Abandoned.antt =====
-- About a dry run and an abandoned run of `runGarbageCollection` (src/storage/gc.ts).
use ipfs_node.Base.{false, ◌≡◌, ◌++◌, filter}
use ipfs_node.Host.{Host}
use ipfs_node.Gc.Plan.{GcPlan}
use ipfs_node.Collector.{
  Collector, GcRunOptions, GcReport, is_held_confirmed, check_each, cids, report_of,
}

-- The fields of a report that the guard rail leaves as they are.
record Begun (start report : GcReport) : Type 0 where
  pub same_collected : report.collected ≡ start.collected
  pub same_removed : report.removed_blocks ≡ start.removed_blocks
  pub same_released : report.released_cids ≡ start.released_cids

module _ (h : Host) (c : Collector h) where
  -- What a run has done and reports that only checked the pins.
  abbrev pub OnlyChecked : GcRunOptions → GcPlan → h.World → GcReport → h.World → Type 0
  OnlyChecked o plan w report after =
      (after
        ≡ (check_each h c o.dry_run (filter is_held_confirmed plan.retained) (report_of o plan)
            w).0)
      × (report.collected ≡ false)
      × (report.removed_blocks ≡ 0)
      × (report.released_cids ≡ cids (plan.expired ++ plan.evicted))
