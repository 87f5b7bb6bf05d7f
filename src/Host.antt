-- ===== src/Host.antt =====
-- What the lifecycle code calls and does not contain: the datastore, the pins and the file system of
-- the Helia node, the UUIDs of node:crypto, and JSON. A call takes the world and returns the new world
-- with a value or an error, so any call may fail.
pub mod Laws
use ipfs_node.Base.Texts.{Text}
use ipfs_node.Base.{ℕ, Bool, true, false, Option, none, some}
use ipfs_node.Registry.{FileRecord}

-- What is thrown. A name that the source compares against is a constructor; the two aggregates are the
-- `AggregateError` of an error alone, and of one and of two failed rollback steps behind it.
pub data Error : Type 0 where
  not_found already_pinned : Error
  failure : Text → Error
  busy : Text → Error
  aggregate : Error → Error
  aggregate_one : Error → Error → Error
  aggregate_two : Error → Error → Error → Error

abbrev pub is_not_found : Error → Bool
is_not_found not_found = true
is_not_found _ = false

abbrev pub is_already_pinned : Error → Bool
is_already_pinned already_pinned = true
is_already_pinned _ = false

pub data Result {ℓ} (A : Type ℓ) : Type ℓ where
  ok : A → Result A
  threw : Error → Result A

-- A promise of nothing.
pub data Done : Type 0 where
  done : Done

-- The two numbers of a UnixFS stat that the source reads.
pub record Stats : Type 0 where
  pub size : ℕ
  pub deduplicated_dag_size : ℕ

pub record Host : Type 1 where
  pub World : Type 0
  -- What a datastore keeps.
  pub Bytes : Type 0
  pub datastore_get : Text → World → World × Result Bytes
  pub datastore_put : Text → Bytes → World → World × Result Done
  pub datastore_delete : Text → World → World × Result Done
  pub pins_add : Text → World → World × Result Done
  pub pins_rm : Text → World → World × Result Done
  pub pins_get : Text → World → World × Result Done
  pub stat : Text → World → World × Result Stats
  pub random_uuid : World → World × Text
  -- Whether the deadline of the pin has passed.
  pub is_aborted : World → Bool
  pub encode : FileRecord → Bytes
  pub decode : Bytes → Option FileRecord

-- The continuation of an awaited call; an error passes through.
unfoldable pub and_then {ℓ κ μ} :
    {W : Type ℓ} {A : Type κ} {B : Type μ} → W × Result A → (A → W → W × Result B) → W × Result B
and_then (w, ok a) f = f a w
and_then (w, threw e) f = (w, threw e)

-- `catch`
unfoldable pub or_else {ℓ κ} :
    {W : Type ℓ} {A : Type κ} → W × Result A → (Error → W → W × Result A) → W × Result A
or_else (w, ok a) f = (w, ok a)
or_else (w, threw e) f = f e w
