-- ===== src/Tombstones.antt =====
-- The abort markers of src/storage/replicaStage.ts: the module's map `abortedTransactions` is the list
-- of its entries in the order of insertion.
pub mod Memory
pub mod Passing
mod Tests
use ipfs_node.Base.Texts.{Text, text_eq}
use ipfs_node.Base.{
  ℕ, Bool, true, false, ◌||◌, ◌&&◌, Option, none, some, List, [], ◌∷◌, ◌++◌, ltb, ◌==◌,
  if◌then◌else◌, any, filter, length,
}

-- `MAX_ABORT_TOMBSTONES`
abbrev pub max_abort_tombstones : ℕ
max_abort_tombstones = 10000

abbrev pub Tombstones : Type 0
Tombstones = List (Text × ℕ)

unfoldable pub transaction_prefix : Text → Text → Text
transaction_prefix cid transaction = cid ++ 0 ∷ (transaction ++ 0 ∷ [])

-- `originPeerId ?? ''`
abbrev origin_text : Option Text → Text
origin_text none = []
origin_text (some p) = p

unfoldable pub transaction_key : Text → Text → Option Text → Text
transaction_key cid transaction origin = transaction_prefix cid transaction ++ origin_text origin

-- The loop that keeps the newest entries.
unfoldable pub trim : ℕ → Tombstones → Tombstones
trim limit [] = []
trim limit (e ∷ es) = if ltb limit (length (e ∷ es)) then trim limit es else e ∷ es

unfoldable pub prune_abort_tombstones : ℕ → Tombstones → Tombstones
unfolding trim
prune_abort_tombstones now ts = trim max_abort_tombstones (filter (λ e. ltb now e.1) ts)

-- `map.set(key, value)`: a key that is there keeps its place.
unfoldable pub map_set : Text → ℕ → Tombstones → Tombstones
map_set key value [] = (key, value) ∷ []
map_set key value (e ∷ es) = if text_eq e.0 key then (key, value) ∷ es else e ∷ map_set key value es

unfoldable pub remember_abort : Text → Text → ℕ → ℕ → Option Text → Tombstones → Tombstones
remember_abort cid transaction expires_at now origin ts =
    prune_abort_tombstones now
      (map_set (transaction_key cid transaction origin) expires_at (prune_abort_tombstones now ts))

-- `text.startsWith(prefix)`
unfoldable pub starts_with : Text → Text → Bool
starts_with [] text = true
starts_with (c ∷ cs) [] = false
starts_with (c ∷ cs) (d ∷ ds) = (c == d) && starts_with cs ds

abbrev has_key : Text → Tombstones → Bool
has_key key = any (λ e. text_eq e.0 key)

-- The answer, over the map that is pruned first.
unfoldable pub is_marked : Text → Text → Option Text → Tombstones → Bool
is_marked cid transaction none ts =
    any (λ e. starts_with (transaction_prefix cid transaction) e.0) ts
is_marked cid transaction (some p) ts =
    has_key (transaction_key cid transaction none) ts
    || has_key (transaction_key cid transaction (some p)) ts

unfoldable pub was_aborted : Text → Text → Option Text → ℕ → Tombstones → Tombstones × Bool
was_aborted cid transaction origin now ts =
    let pruned = prune_abort_tombstones now ts in (pruned, is_marked cid transaction origin pruned)
