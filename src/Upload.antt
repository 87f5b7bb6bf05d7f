-- ===== src/Upload.antt =====
-- src/storage/uploadSession.ts: the blocks that uploads in flight are writing, and the cleanup of an
-- upload that failed. Uploads interleave at every `await`, so each synchronous part is one event.
mod Tests
pub mod Counts
pub mod Invariant
pub mod Cleanup
use ipfs_node.Base.Texts.{Text, text_eq}
use ipfs_node.Base.{
  ℕ, zero, suc, ◌+◌, ◌-◌, Bool, true, false, ◌&&◌, ◌||◌, not, Option, none, some, List, [], ◌∷◌,
  ◌++◌, if◌then◌else◌, leb, is_some, get_or, filter, length, ◌==◌,
}
use ipfs_node.Registry.{contains}

-- `inFlightBlocks`
abbrev pub InFlight : Type 0
InFlight = List (Text × ℕ)

unfoldable pub references : Text → InFlight → Option ℕ
references key [] = none
references key (e ∷ es) = if text_eq e.0 key then some e.1 else references key es

unfoldable pub set_references : Text → ℕ → InFlight → InFlight
set_references key n [] = (key, n) ∷ []
set_references key n (e ∷ es) =
    if text_eq e.0 key then (key, n) ∷ es else e ∷ set_references key n es

unfoldable pub drop_references : Text → InFlight → InFlight
drop_references key = filter (λ e. not (text_eq e.0 key))

unfoldable pub retain_block : Text → InFlight → InFlight
retain_block key blocks = set_references key (get_or (references key blocks) 0 + 1) blocks

-- The new map, and the references that are left.
unfoldable pub release_block : Text → InFlight → InFlight × ℕ
release_block key blocks =
    let next = get_or (references key blocks) 1 - 1 in
    if leb next 0 then (drop_references key blocks, 0) else (set_references key next blocks, next)

unfoldable pub in_flight_block_count : InFlight → ℕ
in_flight_block_count blocks = length blocks

unfoldable pub is_block_in_flight : Text → InFlight → Bool
is_block_in_flight key blocks = is_some (references key blocks)

-- An upload session with its recording blockstore. `cleaning` is the position of a running cleanup in
-- the created blocks, `settlements` counts the calls of `onSettle`.
pub record Session : Type 0 where
  pub created : List Text
  pub touched : List Text
  pub bytes_written : ℕ
  pub settled : Bool
  pub claimed : Bool
  pub releasable : List Text
  pub cleaning : Option ℕ
  pub removed : ℕ
  pub settlements : ℕ

abbrev pub new_session : Session
new_session = record {
  created = [];
  touched = [];
  bytes_written = 0;
  settled = false;
  claimed = false;
  releasable = [];
  cleaning = none;
  removed = 0;
  settlements = 0;
}

-- The part of `put` between the answer of `has` and the write.
unfoldable pub touch_block : Text → InFlight → Session → InFlight × Session
touch_block key blocks s =
    if contains key s.touched
    then (blocks, s)
    else (retain_block key blocks, record s { touched = s.touched ++ key ∷ [] })

-- The part of `put` after the write; `size` is `block.byteLength`, or 0 for a stream.
unfoldable pub record_block : Text → Bool → ℕ → Session → Session
record_block key existed size s =
    if not existed && not (contains key s.created)
    then record s { created = s.created ++ key ∷ []; bytes_written = s.bytes_written + size }
    else s

-- The counters of one part of the request (`beginFile`).
pub record FileCounter : Type 0 where
  pub before : ℕ
  pub referenced : List Text
  pub protected_bytes : ℕ

unfoldable pub begin_file : Session → FileCounter
begin_file s = record { before = s.bytes_written; referenced = []; protected_bytes = 0 }

-- The part of the facade's `put` after the block is written.
unfoldable pub count_block : Text → ℕ → FileCounter → FileCounter
count_block key size f = if contains key f.referenced then f else record f {
  referenced = f.referenced ++ key ∷ [];
  protected_bytes = f.protected_bytes + size;
}

unfoldable pub stored_bytes_of : Session → FileCounter → ℕ
stored_bytes_of s f = s.bytes_written - f.before

-- The map without the references, and the blocks that nobody holds any more.
unfoldable pub release_all : List Text → InFlight → InFlight × List Text
release_all [] blocks = (blocks, [])
release_all (key ∷ keys) blocks =
    let (after, left) = release_block key blocks in
    let (final, zeroed) = release_all keys after in
    (final, if left == 0 then key ∷ zeroed else zeroed)

unfoldable pub claim : Session → Session × Bool
claim s = if s.settled then (s, false) else (record s { claimed = true }, true)

unfoldable pub commit : InFlight → Session → InFlight × Session
commit blocks s = if s.settled then (blocks, s) else (
  (release_all s.touched blocks).0,
  record s { settled = true; claimed = false; touched = []; settlements = s.settlements + 1 },
)

-- The part of `cleanup` before its first `await`.
unfoldable pub begin_cleanup : InFlight → Session → InFlight × Session
begin_cleanup blocks s = if s.settled then (blocks, s) else (
  (release_all s.touched blocks).0,
  record s {
    settled = true;
    claimed = false;
    touched = [];
    releasable = (release_all s.touched blocks).1;
    cleaning = some 0;
  },
)

unfoldable pub begin_cleanup_if_unclaimed : InFlight → Session → InFlight × Session
begin_cleanup_if_unclaimed blocks s =
    if s.settled || s.claimed then (blocks, s) else begin_cleanup blocks s

unfoldable pub nth : ℕ → List Text → Option Text
nth n [] = none
nth zero (x ∷ xs) = some x
nth (suc n) (x ∷ xs) = nth n xs

-- What the loop of `cleanup` does with a block once `isPinned` has answered; a question that throws
-- counts as `pinned`, since the loop goes on.
unfoldable pub may_delete : InFlight → Session → Text → Bool → Bool
may_delete blocks s key pinned =
    contains key s.releasable && (not pinned && not (is_block_in_flight key blocks))

-- One round of the loop: the session, and the block whose deletion starts. `created` is a live set,
-- so a block that is recorded meanwhile is visited too.
unfoldable pub visit : InFlight → Session → ℕ → Bool → Session × Option Text
visit blocks s position pinned = elim (nth position s.created) [
  | none ↦ (record s { cleaning = none; settlements = s.settlements + 1 }, none)
  | some key ↦
      if may_delete blocks s key pinned
      then (record s { cleaning = some (position + 1) }, some key)
      else (record s { cleaning = some (position + 1) }, none)
]

unfoldable pub continue_cleanup : InFlight → Session → Bool → Session × Option Text
continue_cleanup blocks s pinned = elim s.cleaning [
  | none ↦ (s, none)
  | some position ↦ visit blocks s position pinned
]

-- The part of the loop after `deleteBlock`.
unfoldable pub note_deletion : Bool → Session → Session
note_deletion succeeded s = if succeeded then record s { removed = s.removed + 1 } else s

-- What happens at a session: the synchronous parts of its operations.
pub data Event : Type 0 where
  put_started : Text → Event
  put_finished : Text → Bool → ℕ → Event
  claims commits cleans cleans_if_unclaimed : Event
  pin_answered : Bool → Event
  deletion_ended : Bool → Event

-- The node's uploads: `inFlightBlocks` and the sessions in the order in which they were opened.
pub record Uploads : Type 0 where
  pub in_flight : InFlight
  pub sessions : List Session

-- The map, the session, and the block whose deletion starts.
unfoldable pub react : Event → InFlight → Session → (InFlight × Session) × Option Text
react (put_started key) blocks s = (touch_block key blocks s, none)
react (put_finished key existed size) blocks s = ((blocks, record_block key existed size s), none)
react claims blocks s = ((blocks, (claim s).0), none)
react commits blocks s = (commit blocks s, none)
react cleans blocks s = (begin_cleanup blocks s, none)
react cleans_if_unclaimed blocks s = (begin_cleanup_if_unclaimed blocks s, none)
react (pin_answered pinned) blocks s =
    let (after, key) = continue_cleanup blocks s pinned in ((blocks, after), key)
react (deletion_ended succeeded) blocks s = ((blocks, note_deletion succeeded s), none)

unfoldable pub session_at : ℕ → List Session → Option Session
session_at n [] = none
session_at zero (s ∷ ss) = some s
session_at (suc n) (s ∷ ss) = session_at n ss

unfoldable pub put_session : ℕ → Session → List Session → List Session
put_session n t [] = []
put_session zero t (s ∷ ss) = t ∷ ss
put_session (suc n) t (s ∷ ss) = s ∷ put_session n t ss

-- A step of one session, or a new session.
pub data Step : Type 0 where
  opens : Step
  happens : ℕ → Event → Step

unfoldable pub step : Step → Uploads → Uploads × Option Text
step opens u = (record u { sessions = u.sessions ++ new_session ∷ [] }, none)
step (happens n e) u = elim (session_at n u.sessions) [
  | none ↦ (u, none)
  | some s ↦
      let ((blocks, after), key) = react e u.in_flight s in
      (record { in_flight = blocks; sessions = put_session n after u.sessions }, key)
]

unfoldable pub run : List Step → Uploads → Uploads
run [] u = u
run (x ∷ xs) u = run xs (step x u).0

abbrev pub no_uploads : Uploads
no_uploads = record { in_flight = []; sessions = [] }
