-- ===== src/Sweep/Tests.antt =====
-- The theorems on sweeps at concrete records.
use ipfs_node.Base.Sort.{sort, insert}
use ipfs_node.Base.Texts.{Text, text, text_eq, text_lt, text_ne}
use ipfs_node.Base.{◌≡◌, refl, true, none, some, List, [], ◌∷◌, map, In, here, there, Distinct}
use ipfs_node.Sweep.{
  repair, demote, Cursors, index_of, ordered, start_of, batch_at, sweep_batch, get_cursor,
  set_cursor, next_sweep_batch,
}
use ipfs_node.Sweep.Coverage.{visited, completes, sweep_is_complete}
use ipfs_node.Sweep.Termination.{repeat, sweep_terminates}

abbrev name_of : Text → Text
name_of t = t

abbrev files : List Text
files = text "c" ∷ text "a" ∷ text "b" ∷ []

abbrev idle : Cursors
idle = record { repair_at = none; demote_at = some (text "b") }

-- A batch is in the order of the CIDs; after the cursor "b" only "c" is left.
sweep_runs :
    ((next_sweep_batch name_of idle repair files true).1 ≡ text "a" ∷ text "b" ∷ text "c" ∷ [])
    × ((next_sweep_batch name_of idle demote files true).1 ≡ text "c" ∷ [])
unfolding next_sweep_batch sweep_batch batch_at start_of ordered index_of sort insert text_eq
    text_lt get_cursor set_cursor
sweep_runs = (refl, refl)

two_files : Distinct (text "b" ∷ text "a" ∷ [])
unfolding text_eq
two_files = ((text_ne (text "b") (text "a") refl, tt), (tt, tt))

finishes : completes name_of repair none ((text "b" ∷ text "a" ∷ []) ∷ []) ≡ true
unfolding completes sweep_batch batch_at start_of ordered index_of sort insert text_eq text_lt
finishes = refl

sweep_is_complete_example :
    In (text "a") (map name_of (visited name_of repair none ((text "b" ∷ text "a" ∷ []) ∷ [])))
sweep_is_complete_example =
    sweep_is_complete name_of repair ((text "b" ∷ text "a" ∷ []) ∷ []) (text "a")
      ((two_files, there here), tt) finishes

sweep_terminates_example :
    completes name_of demote none (repeat 3 (text "b" ∷ text "a" ∷ [])) ≡ true
sweep_terminates_example = sweep_terminates name_of demote (text "b" ∷ text "a" ∷ []) two_files
