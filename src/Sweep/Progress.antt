-- ===== src/Sweep/Progress.antt =====
-- About one pass of `nextSweepBatch` (src/storage/sweep.ts).
use ipfs_node.Base.Texts.{Text}
use ipfs_node.Base.Sort.{length-sort}
use ipfs_node.Base.{
  ℕ, ◌≤◌, ◌≡◌, refl, Bool, false, Option, none, List, arith, length, drop, length-take,
}
use ipfs_node.Sweep.{
  SweepName, repair, demote, Cursors, sweep_batches, ordered, start_of, batch_at, sweep_batch,
  get_cursor, set_cursor, next_sweep_batch,
}

-- The other sweep.
abbrev pub other : SweepName → SweepName
other repair = demote
other demote = repair

set_cursor-other :
    (c : Cursors) (s : SweepName) (at_cid : Option Text)
    → get_cursor (set_cursor c s at_cid) (other s) ≡ get_cursor c (other s)
unfolding get_cursor set_cursor
set_cursor-other c repair at_cid = refl
set_cursor-other c demote at_cid = refl

module _ {ℓ} {T : Type ℓ} (cid : T → Text) where
  size_pos : (s : SweepName) → 1 ≤ sweep_batches s
  size_pos repair = omega arith
  size_pos demote = omega arith

  length-ordered : (records : List T) → length (ordered cid records) ≡ length records
  unfolding ordered
  length-ordered records = length-sort _ records

  from_the_front :
      (sweep : SweepName) (records : List T)
      → 1 ≤ length records
      → 1 ≤ length (sweep_batch cid sweep records none).records
  unfolding sweep_batch batch_at start_of
  from_the_front sweep records h = ground (
    arith,
    length-ordered records,
    size_pos sweep,
    length-take (sweep_batches sweep) (ordered cid records),
  )

  within_size : (size start : ℕ) (xs : List T) → length (batch_at cid size xs start).records ≤ size
  unfolding batch_at
  within_size size start xs = ground (arith, length-take size (drop start xs))

  fits :
      (sweep : SweepName) (records : List T) (cursor : Option Text)
      → length (sweep_batch cid sweep records cursor).records ≤ sweep_batches sweep
  unfolding sweep_batch
  fits sweep records cursor =
      within_size (sweep_batches sweep) (start_of cid (ordered cid records) cursor)
        (ordered cid records)

  -- While there are records, a pass gets at least one of them and no more than the size of a batch,
  -- wherever the last pass stopped. It moves the position of its own sweep alone, and no position
  -- where it is only asked what comes next.
  pub next_sweep_batch_works :
      (cursors : Cursors) (sweep : SweepName) (records : List T) (advance : Bool)
      → 1 ≤ length records
      → let (after, batch) = next_sweep_batch cid cursors sweep records advance in
        (1 ≤ length batch)
        × (length batch ≤ sweep_batches sweep)
        × (get_cursor after (other sweep) ≡ get_cursor cursors (other sweep))
        × ((next_sweep_batch cid cursors sweep records false).0 ≡ cursors)
  unfolding next_sweep_batch
  next_sweep_batch_works cursors sweep records advance h =
      let resumed = sweep_batch cid sweep records (get_cursor cursors sweep) in
      let front = sweep_batch cid sweep records none in
      (
        ground (arith, from_the_front sweep records h),
        ground (arith, fits sweep records none, fits sweep records (get_cursor cursors sweep)),
        ground (
          arith,
          set_cursor-other cursors sweep resumed.next_cursor,
          set_cursor-other cursors sweep front.next_cursor,
        ),
        refl,
      )
