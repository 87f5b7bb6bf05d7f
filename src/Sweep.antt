-- ===== src/Sweep.antt =====
-- src/storage/sweep.ts: the bounded batches of the periodic sweeps and where each continues.
-- The module's `cursors` map is the record Cursors; the type of the records is a parameter with its
-- CID, as in the source.
pub mod Order
pub mod Coverage
pub mod Termination
pub mod Progress
mod Tests
use mathlib.Core.Option
use ipfs_node.Base.Sort.{sort}
use ipfs_node.Base.Texts.{Text, text_eq, text_lt}
use ipfs_node.Base.{
  ℕ, suc, ◌+◌, Bool, true, false, ◌&&◌, Option, none, some, List, [], ◌∷◌, ltb, leb, if◌then◌else◌,
  length, take, drop, get_last?, is_none, get_or,
}

pub data SweepName : Type 0 where
  repair demote : SweepName

-- `SWEEP_BATCHES`
abbrev pub sweep_batches : SweepName → ℕ
sweep_batches repair = 50
sweep_batches demote = 200

unfoldable pub index_of {ℓ} : {T : Type ℓ} → (T → Bool) → List T → Option ℕ
index_of p [] = none
index_of p (x ∷ xs) = if p x then some 0 else Option.map suc (index_of p xs)

pub record SweepBatch {ℓ} (T : Type ℓ) : Type ℓ where
  pub records : List T
  pub cycle_completed : Bool
  pub next_cursor : Option Text

pub record Cursors : Type 0 where
  pub repair_at : Option Text
  pub demote_at : Option Text

unfoldable pub get_cursor : Cursors → SweepName → Option Text
get_cursor c repair = c.repair_at
get_cursor c demote = c.demote_at

unfoldable pub set_cursor : Cursors → SweepName → Option Text → Cursors
set_cursor c repair at_cid = record { repair_at = at_cid; demote_at = c.demote_at }
set_cursor c demote at_cid = record { repair_at = c.repair_at; demote_at = at_cid }

module _ {ℓ} {T : Type ℓ} (cid : T → Text) where
  unfoldable pub ordered : List T → List T
  ordered records = sort (λ left right. text_lt (cid left) (cid right)) records

  -- Where the batch after a cursor starts in the sorted records.
  unfoldable pub start_of : List T → Option Text → ℕ
  start_of xs none = 0
  start_of xs (some c) = elim (index_of (λ r. text_eq (cid r) c) xs) [
    | some exact ↦ exact + 1
    | none ↦ get_or (index_of (λ r. text_lt c (cid r)) xs) (length xs)
  ]

  unfoldable pub batch_at : ℕ → List T → ℕ → SweepBatch T
  batch_at size xs start =
      let batch = take size (drop start xs) in
      let completed = leb (length xs) (start + length batch) in
      if leb (length xs) start
      then record { records = []; cycle_completed = true; next_cursor = none }
      else record {
        records = batch;
        cycle_completed = completed;
        next_cursor = if completed then none else Option.map cid (get_last? batch);
      }

  unfoldable pub sweep_batch : SweepName → List T → Option Text → SweepBatch T
  unfolding batch_at
  sweep_batch sweep records cursor =
      batch_at (sweep_batches sweep) (ordered records) (start_of (ordered records) cursor)

  -- `nextSweepBatch`; the last argument is `options.advance`.
  unfoldable pub next_sweep_batch : Cursors → SweepName → List T → Bool → Cursors × List T
  next_sweep_batch cursors sweep records advance =
      let resumed = sweep_batch sweep records (get_cursor cursors sweep) in
      let selected =
        if leb (length resumed.records) 0 && ltb 0 (length records)
        then sweep_batch sweep records none
        else resumed in
      (if advance then set_cursor cursors sweep selected.next_cursor else cursors, selected.records)
