-- ===== src/Tombstones/Tests.antt =====
-- The theorem on abort markers at a concrete abort.
use ipfs_node.Base.Texts.{text}
use ipfs_node.Base.{◌≡◌, refl, false, none, some, [], ◌∷◌}
use ipfs_node.Tombstones.{
  Tombstones, remember_abort, was_aborted, is_marked, prune_abort_tombstones, trim, map_set,
  transaction_key, transaction_prefix, starts_with,
}

abbrev older : Tombstones
older = (text "x", 5) ∷ []

-- The answer is no longer positive once the marker has expired.
forgotten :
    (was_aborted
      (text "c")
      (text "t")
      none
      60
      (remember_abort (text "c") (text "t") 50 10 (some (text "p")) older)).1
    ≡ false
unfolding was_aborted remember_abort is_marked prune_abort_tombstones trim map_set starts_with
    transaction_key transaction_prefix
forgotten = refl
