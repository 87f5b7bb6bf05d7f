-- ===== src/RepairCycle/State.antt =====
-- The passes of the repair driver, which feeds each pass the cursor of the last one, and the restarts
-- between them (src/storage/repairCycle.ts).
use ipfs_node.Base.Texts.{Text}
use ipfs_node.Base.{Option, none, some, List, [], ◌∷◌, ◌++◌}
use ipfs_node.RepairCycle.{
  RepairCycle, RepairCycleBatch, Scans, next_repair_cycle_batch, reset_repair_cycle,
}

pub data Event : Type 0 where
  pass : Scans → Event
  restart : Event

-- `handed_out` is what the cycle has handed out since a pass began it without a cursor.
pub record Drive : Type 0 where
  pub cycle : Option RepairCycle
  pub cursor : Option Text
  pub handed_out : List Text

abbrev pub before_pass : Drive → List Text
before_pass d = elim d.cursor [ none ↦ [] | some c ↦ d.handed_out ]

unfoldable pub drive_pass : Drive → Scans → Drive × RepairCycleBatch
drive_pass d scans =
    let (cycle, batch) = next_repair_cycle_batch d.cycle scans d.cursor in
    (
      record {
        cycle = cycle;
        cursor = batch.next_cursor;
        handed_out = before_pass d ++ batch.cids;
      },
      batch,
    )

unfoldable pub drive : Drive → Event → Drive
drive d (pass scans) = (drive_pass d scans).0
drive d restart = record {
  cycle = reset_repair_cycle d.cycle;
  cursor = d.cursor;
  handed_out = d.handed_out;
}

abbrev pub idle : Drive
idle = record { cycle = none; cursor = none; handed_out = [] }

unfoldable pub drive_all : Drive → List Event → Drive
drive_all d [] = d
drive_all d (e ∷ es) = drive_all (drive d e) es
