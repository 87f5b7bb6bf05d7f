-- ===== src/Lifecycle.antt =====
-- src/storage/lifecycle.ts and the pin calls of src/storage/pinning.ts: the transitions that change a
-- pin and a record together. Each runs while the CID's lock is held, over the calls of a host.
pub mod Steps
pub mod Rollback
pub mod Frame
pub mod Release
pub mod Confirm
pub mod Model
mod Tests
use ipfs_node.Base.Texts.{Text, text}
use ipfs_node.Base.{
  ℕ, Bool, true, false, ◌&&◌, ◌||◌, not, Option, none, some, List, [], ◌∷◌, if◌then◌else◌, get_or,
}
use ipfs_node.Registry.{
  FileRecord, FileState, temporary, confirmed, expired, Process, is_lifecycle_busy,
}
use ipfs_node.Host.{
  is_not_found, is_already_pinned, Host, Error, not_found, already_pinned, failure, busy,
  aggregate_one, aggregate_two, Result, Done, done, ok, threw, Stats, and_then, or_else,
}
use ipfs_node.FileRegistry.{
  get, save, remove_record, register_exclusively, NewFileRecord, RegisterFileOptions, Registered,
}

-- `timed` says that the caller set `pinTimeoutMs`, `now` is the clock's reading.
pub record RegisterPinnedOptions : Type 0 where
  pub cid : Text
  pub name : Option Text
  pub temporary_ttl_ms : ℕ
  pub timed : Bool
  pub now : ℕ

-- The error that leaves `restoreLifecycleBaseline`.
unfoldable pub rollback_error : Error → Option Error → Option Error → Error
rollback_error original none none = original
rollback_error original (some e) none = aggregate_one original e
rollback_error original none (some e) = aggregate_one original e
rollback_error original (some e) (some f) = aggregate_two original e f

unfoldable pub error_of {ℓ} : {A : Type ℓ} → Result A → Option Error
error_of (ok a) = none
error_of (threw e) = some e

abbrev pub claims_pin : Option FileRecord → Bool
claims_pin none = false
claims_pin (some r) = r.pinned

-- The record that a confirmation stores.
unfoldable pub confirmed_record : FileRecord → ℕ → FileRecord
confirmed_record current now = record current {
  state = confirmed;
  expires_at = none;
  confirmed_at = some (get_or current.confirmed_at now);
  pinned = true;
  held_locally = true;
  admission_id = none;
  admission_settled_at = none;
  replica_stage = none;
}

-- The record that a release stores.
unfoldable pub released_record : FileRecord → FileRecord
released_record current = record current {
  state = expired;
  pinned = false;
  held_locally = false;
  admission_id = none;
  admission_settled_at = none;
  replica_stage = none;
}

module _ (h : Host) where
  unfoldable pub pin_file : Bool → Text → h.World → h.World × Result Bool
  pin_file timed cid w =
      if timed && h.is_aborted w
      then (w, threw (failure (text "Pin was aborted")))
      else or_else (and_then (h.pins_add cid w) (λ u after. (after, ok true)))
          (λ e after. if is_already_pinned e then (after, ok false) else (after, threw e))

  unfoldable pub unpin_file : Text → h.World → h.World × Result Bool
  unpin_file cid w =
      or_else (and_then (h.pins_rm cid w) (λ u after. (after, ok true)))
        (λ e after. if is_not_found e then (after, ok false) else (after, threw e))

  unfoldable pub is_directly_pinned : Text → h.World → h.World × Result Bool
  is_directly_pinned cid w =
      or_else (and_then (h.pins_get cid w) (λ u after. (after, ok true)))
        (λ e after. if is_not_found e then (after, ok false) else (after, threw e))

  -- `current.pinned || (await isDirectlyPinned(node, cid))`
  unfoldable pub was_pinned : Bool → Text → h.World → h.World × Result Bool
  was_pinned claimed cid w = if claimed then (w, ok true) else is_directly_pinned cid w

  unfoldable pub restore_pin : Bool → Bool → Text → h.World → h.World × Result Bool
  restore_pin timed was cid w = if was then pin_file timed cid w else unpin_file cid w

  unfoldable pub restore_record : Text → Option FileRecord → h.World → h.World × Result Done
  restore_record cid none w = remove_record h cid w
  restore_record cid (some r) w = and_then (save h r w) (λ s after. (after, ok done))

  unfoldable pub restore_lifecycle_baseline {ℓ} :
      {A : Type ℓ} → Bool → Text → Option FileRecord → Bool → Error → h.World → h.World × Result A
  restore_lifecycle_baseline timed cid previous was original w =
      let (repinned, first) = restore_pin timed was cid w in
      let (after, second) = restore_record cid previous repinned in
      (after, threw (rollback_error original (error_of first) (error_of second)))

  unfoldable pub pin_and_register :
      Process → RegisterPinnedOptions → h.World → h.World × Result FileRecord
  pin_and_register p options w = and_then (pin_file options.timed options.cid w) (λ created pinned.
      and_then (h.stat options.cid pinned) (λ stats measured.
        and_then
          (register_exclusively h p
            (record {
              cid = options.cid;
              name = get_or options.name options.cid;
              file_size = stats.size;
              stored_bytes = stats.deduplicated_dag_size;
              protected_bytes = some stats.deduplicated_dag_size;
            })
            (record {
              confirmation_required = false;
              temporary_ttl_ms = options.temporary_ttl_ms;
              now = options.now;
              admission_id = none;
            })
            measured)
          (λ registered after. (after, ok registered.stored))))

  unfoldable pub register_pinned_under_lock :
      Process → RegisterPinnedOptions → Option FileRecord → h.World → h.World × Result FileRecord
  register_pinned_under_lock p options previous w =
      and_then (was_pinned (claims_pin previous) options.cid w) (λ was known.
        or_else (pin_and_register p options known)
          (restore_lifecycle_baseline options.timed options.cid previous was))

  unfoldable pub register_pinned_file :
      Process → RegisterPinnedOptions → h.World → h.World × Result FileRecord
  register_pinned_file p options w =
      and_then (get h options.cid w) (register_pinned_under_lock p options)

  unfoldable pub confirm_known :
      Process → RegisterPinnedOptions → FileRecord → h.World → h.World × Result (Option FileRecord)
  confirm_known p options current w =
      if is_lifecycle_busy p current
      then (w, threw (busy options.cid))
      else and_then (was_pinned current.pinned options.cid w) (λ was known.
        or_else
          (and_then (pin_file options.timed options.cid known) (λ created pinned.
            and_then (save h (confirmed_record current options.now) pinned)
              (λ s after. (after, ok (some s)))))
          (restore_lifecycle_baseline options.timed options.cid (some current) was))

  -- The part of `confirmStoredFile` that runs under the lock.
  unfoldable pub confirm_under_lock :
      Process → RegisterPinnedOptions → Bool → h.World → h.World × Result (Option FileRecord)
  confirm_under_lock p options register_unknown w = and_then (get h options.cid w) (λ current known.
      elim current [
        | none ↦
            if register_unknown
            then and_then (register_pinned_under_lock p options none known)
                (λ s after. (after, ok (some s)))
            else (known, ok none)
        | some r ↦ confirm_known p options r known
      ])

  -- `prepare` is `options.prepareForPin`.
  unfoldable pub confirm_stored_file :
      Process
      → RegisterPinnedOptions
      → Bool
      → Option (h.World → h.World × Result Done)
      → h.World
      → h.World × Result (Option FileRecord)
  confirm_stored_file p options register_unknown prepare w =
      if register_unknown
      then elim prepare [
        | none ↦ (w, threw (failure (text "must be fetched or validated before it can be adopted")))
        | some f ↦ and_then (f w) (λ d after. confirm_under_lock p options register_unknown after)
      ]
      else confirm_under_lock p options register_unknown w

  unfoldable pub release_known :
      Process → Text → FileRecord → h.World → h.World × Result (Option FileRecord)
  release_known p cid current w =
      if is_lifecycle_busy p current
      then (w, threw (busy cid))
      else and_then (was_pinned current.pinned cid w) (λ was known.
        or_else
          (and_then (unpin_file cid known) (λ removed unpinned.
            and_then (save h (released_record current) unpinned) (λ s after. (after, ok (some s)))))
          (restore_lifecycle_baseline false cid (some current) was))

  unfoldable pub release_stored_file :
      Process → Text → h.World → h.World × Result (Option FileRecord)
  release_stored_file p cid w = and_then (get h cid w) (λ current known. elim current [
    | none ↦ (known, ok none)
    | some r ↦ release_known p cid r known
  ])
