-- ===== src/RepairCycle/Tests.antt =====
-- The theorem on repair cycles at a concrete drive, with a file that arrives behind the first pass.
use ipfs_node.Base.Texts.{text, text_eq, text_lt}
use ipfs_node.Base.{◌≡◌, refl, true, List, [], ◌∷◌, In, here, there}
use ipfs_node.Registry.{contains}
use ipfs_node.Sweep.{index_of}
use ipfs_node.RepairCycle.{
  Scans, next_repair_cycle_batch, batch_of, advance, fresh_in, pass_over, current_cycle,
  start_cycle, resume_index,
}
use ipfs_node.RepairCycle.State.{Event, pass, drive_pass, drive, idle, drive_all}
use ipfs_node.RepairCycle.Coverage.{cycle_covers}

-- "b" arrives while "a" is handed out, so the cycle catches up.
abbrev passes : List Event
passes = pass (record { first = text "a" ∷ []; last = text "a" ∷ text "b" ∷ [] }) ∷ []

abbrev final_scans : Scans
final_scans = record { first = []; last = text "a" ∷ text "b" ∷ [] }

final_pass :
    ((drive_pass (drive_all idle passes) final_scans).1.cycle_completed ≡ true)
    × ((drive_pass (drive_all idle passes) final_scans).1.coverage_proven ≡ true)
    × ((drive_pass (drive_all idle passes) final_scans).1.uncovered ≡ 0)
    × ((drive_pass (drive_all idle passes) final_scans).0.handed_out ≡ text "a" ∷ text "b" ∷ [])
unfolding drive_pass drive drive_all next_repair_cycle_batch batch_of advance fresh_in pass_over
    current_cycle start_cycle resume_index index_of contains text_eq text_lt
final_pass = (refl, refl, refl, refl)

cycle_covers_example : In (text "b") (drive_pass (drive_all idle passes) final_scans).0.handed_out
cycle_covers_example =
    cycle_covers passes final_scans final_pass.0 final_pass.1 final_pass.2 (text "b") (there here)
