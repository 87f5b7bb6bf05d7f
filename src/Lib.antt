-- ===== src/Lib.antt =====
-- Verification of the storage core of the ADAMANT IPFS node (TypeScript, src/).
--
-- A node accepts uploads, pins them in its Helia node, and keeps a durable record of each file in a
-- datastore (the registry). An upload is registered as temporary or confirmed, copied to the nodes
-- that the placement designates, and counted as durable when a quorum of them has pinned it. Sweeps
-- repair missing copies and hand over files; the collector releases what has expired or what must go
-- for space and deletes unpinned blocks, alone under the storage lock. A health checkpoint says
-- whether the evidence of all this is fresh. The parts, each with its file here:
--
-- - Base: numbers, Boolean tests, lists, texts (a string is the list of its UTF-16 code units, which is
--   the order in which the source compares), insertion sort for `Array.prototype.sort`.
-- - Registry: src/storage/registry.ts (the record, `isFileRecord`, the lifecycle predicates),
--   src/storage/admissionState.ts and src/storage/repairState.ts (the sets of running uploads and
--   repairs, the record Process).
-- - Host: what is called and not contained in the repository: the datastore, the pins and the stat of
--   Helia, UUIDs and JSON, as one record of functions on a world, every call of which may throw. What
--   they are relied on to do is Host/Laws: a read changes nothing; a write is atomic, and one that
--   throws may have been persisted; a call touches only its own key or CID; adding a pin loses none.
--   Lifecycle/Model gives a host for which the laws hold and whose writes fail by a schedule.
-- - FileRegistry: the operations of `LockedFileRegistry` (`get`, `save`, `removeRecord`,
--   `registerExclusively`), `transition`, `createIfAbsent` and the listing of the entries of a query,
--   over a host.
-- - Lifecycle: src/storage/lifecycle.ts with the pin calls of src/storage/pinning.ts: `confirmStoredFile`,
--   `registerPinnedFile`, `releaseStoredFile` and `restoreLifecycleBaseline`. They are modelled as they
--   run under the lock of their CID, so nothing else touches that CID meanwhile.
-- - Admission: src/storage/admission.ts (recovery and clearing of tokens), src/storage/rollback.ts and
--   src/storage/repairClaim.ts, over a host.
-- - Tombstones: the abort markers of src/storage/replicaStage.ts, kept in the order of insertion.
-- - Replica: src/storage/replicaStage.ts, a copy that is prepared for the uploads of other nodes and
--   that they commit or abort. Replica/Diagram forgets all but the state of the copy and the
--   transactions that depend on it; Replica/Late needs the markers of Tombstones, of which Tombstones/Passing says what may
--   come by.
-- - Collector: `runGarbageCollection` of src/storage/gc.ts, over a host and a record of what else it
--   calls. Other tasks may do anything to the world wherever no lock is held: the record has a function
--   for that. The collection of blocks by Helia is a list of its events.
-- - Claims: src/storage/limits.ts and src/storage/reservation.ts: slots, sizes and claims of free space.
-- - Gc: `planGarbageCollection` of src/storage/gc.ts. Differences of byte counts are integers.
-- - Upload: src/storage/uploadSession.ts, the in-flight blocks and the sessions. The code between two
--   awaits is one event; a run is any sequence of events of any sessions.
-- - Lock: src/storage/operationLock.ts, as steps on the counters, the queue and the leases.
-- - Intake: src/storage/intakeBudget.ts. A bucket, which a reservation shares with the window, has an
--   identity, so a settlement corrects the bucket it was charged to.
-- - Placement: src/storage/placement.ts. The SHA-256 score of a node for a CID is a parameter; the
--   theorems hold for every score.
-- - Replication: src/storage/replication.ts. The answers of the peers are functions from a peer; the
--   concurrent requests of one upload do not depend on each other.
-- - Sweep and RepairCycle: src/storage/sweep.ts and src/storage/repairCycle.ts. The module variables
--   are explicit states, and what the registry holds at each scan is an argument, so that it may change
--   between the scans.
-- - RepairDriver: src/storage/repairCycleDriver.ts, as steps on what ticks, operators, the timer and the
--   passes do. A pass has a number; its callbacks are events of their own.
-- - Config: src/storage/config.ts. An option is a field of a decoded JSON value; a rejection keeps the
--   option, not the words of the message.
-- - RepairEvidence: src/storage/repairEvidence.ts, what of the decoded JSON value its validator looks at.
-- - Health: src/health/state.ts, `evaluateHealth` and `refreshHealthSnapshot`.
--
-- Sizes, times and counts are natural numbers; the rounding of JavaScript numbers above 2^53 is not
-- modelled. Loops over lists are structural recursion, so no fuel is used. An optional value is an
-- Option; null and undefined are both none, but for the fields of a decoded JSON value
-- (Base/Fields). The text of an error message is shortened to its constant part, and logging is
-- left out.
--
-- Not modelled: the queue of locks per CID in `FileRegistry` (every operation is modelled as it
-- runs under its lock), `setReplicas` and pin intents; the wire protocol
-- (src/storage/replicationProtocol.ts), and src/storage/service.ts, which wires the parts together;
-- src/config.ts, which reads the file that Config resolves, and src/replication.cron.ts, which runs
-- the passes. The HTTP routes, middleware, security settings, peering, logging and start-up code
-- are input and output around these parts.
pub mod Admission
pub mod Base
pub mod Claims
pub mod Collector
pub mod Config
pub mod FileRegistry
pub mod Gc
pub mod Health
pub mod Host
pub mod Intake
pub mod Lifecycle
pub mod Lock
pub mod Placement
pub mod Registry
pub mod RepairCycle
pub mod RepairDriver
pub mod RepairEvidence
pub mod Replica
pub mod Replication
pub mod Sweep
pub mod Tombstones
pub mod Upload
