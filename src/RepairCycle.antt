-- ===== src/RepairCycle.antt =====
-- src/storage/repairCycle.ts: the cycle of replication repair over the candidates of the registry.
-- The module variable `cycle` is an explicit state; the registry scans of a pass, which may find
-- different records, are arguments.
pub mod State
pub mod Positions
pub mod Coverage
mod Tests
use ipfs_node.Base.Sort.{sort}
use ipfs_node.Base.Texts.{Text, text_eq, text_lt}
use ipfs_node.Base.{
  ℕ, suc, ◌+◌, Bool, true, false, ◌&&◌, not, Option, none, some, List, [], ◌∷◌, ◌++◌, map, ltb, leb,
  if◌then◌else◌, length, take, drop, filter, get_last?, is_none, is_some, get_or,
}
use ipfs_node.Registry.{FileRecord, Process, contains, is_lifecycle_busy, is_confirmed}
use ipfs_node.Sweep.{sweep_batches, repair, index_of}

-- `MAX_CATCH_UP_ROUNDS`
abbrev pub max_catch_up_rounds : ℕ
max_catch_up_rounds = 3

pub record RepairCycleBatch : Type 0 where
  pub cids : List Text
  pub cycle_completed : Bool
  pub next_cursor : Option Text
  pub uncovered : ℕ
  pub coverage_proven : Bool

pub record RepairCycle : Type 0 where
  pub cids : List Text
  pub index : ℕ
  pub refreshes : ℕ
  pub resumed : Bool

unfoldable pub is_candidate : Process → FileRecord → Bool
is_candidate p r = is_confirmed r.state && not (is_lifecycle_busy p r)

-- What `candidateCids` makes of the records of a scan.
unfoldable pub candidate_cids : Process → List FileRecord → List Text
candidate_cids p records = sort text_lt (map (λ r. r.cid) (filter (is_candidate p) records))

unfoldable pub resume_index : List Text → Option Text → ℕ
resume_index cids none = 0
resume_index cids (some cursor) = elim (index_of (λ c. text_eq c cursor) cids) [
  | some exact ↦ exact + 1
  | none ↦ get_or (index_of (λ c. text_lt cursor c) cids) (length cids)
]

-- The candidates at the scan that may start a cycle, and at the scan that may end it.
pub record Scans : Type 0 where
  pub first : List Text
  pub last : List Text

unfoldable pub start_cycle : List Text → Option Text → RepairCycle
start_cycle cids cursor = record {
  cids = cids;
  index = resume_index cids cursor;
  refreshes = 0;
  resumed = is_some cursor;
}

-- The cycle a pass continues.
unfoldable pub current_cycle : Scans → Option Text → Option RepairCycle → RepairCycle
current_cycle scans cursor none = start_cycle scans.first cursor
current_cycle scans none (some c) = start_cycle scans.first none
current_cycle scans (some k) (some c) = c

unfoldable pub batch_of : RepairCycle → List Text
batch_of c = take (sweep_batches repair) (drop c.index c.cids)

-- `batch.at(-1) ?? cursor`
abbrev pub next_of : List Text → Option Text → Option Text
next_of batch cursor = elim (get_last? batch) [ none ↦ cursor | some c ↦ some c ]

unfoldable pub advance : RepairCycle → RepairCycle
advance c = record {
  cids = c.cids;
  index = c.index + length (batch_of c);
  refreshes = c.refreshes;
  resumed = c.resumed;
}

unfoldable pub fresh_in : RepairCycle → List Text → List Text
fresh_in c found = filter (λ k. not (contains k c.cids)) found

abbrev pub catch_up : RepairCycle → List Text → RepairCycle
catch_up c fresh = record {
  cids = c.cids ++ fresh;
  index = c.index;
  refreshes = suc c.refreshes;
  resumed = c.resumed;
}

-- The rest of a pass over the cycle that it continues.
unfoldable pub pass_over :
    RepairCycle → Option Text → List Text → Option RepairCycle × RepairCycleBatch
pass_over c cursor found =
    let batch = batch_of c in
    let moved = advance c in
    let fresh = fresh_in moved found in
    let going : RepairCycleBatch = record {
      cids = batch;
      cycle_completed = false;
      next_cursor = next_of batch cursor;
      uncovered = 0;
      coverage_proven = not c.resumed;
    } in
    if ltb moved.index (length moved.cids)
    then (some moved, going)
    else if leb (length fresh) 0
    then (
      none,
      record {
        cids = batch;
        cycle_completed = true;
        next_cursor = none;
        uncovered = 0;
        coverage_proven = not c.resumed;
      },
    )
    else if ltb c.refreshes max_catch_up_rounds
    then (some (catch_up moved fresh), going)
    else (
      none,
      record {
        cids = batch;
        cycle_completed = true;
        next_cursor = none;
        uncovered = length fresh;
        coverage_proven = not c.resumed;
      },
    )

unfoldable pub next_repair_cycle_batch :
    Option RepairCycle → Scans → Option Text → Option RepairCycle × RepairCycleBatch
next_repair_cycle_batch cycle scans cursor =
    pass_over (current_cycle scans cursor cycle) cursor scans.last

-- `resetRepairCycle`
unfoldable pub reset_repair_cycle : Option RepairCycle → Option RepairCycle
reset_repair_cycle cycle = none
