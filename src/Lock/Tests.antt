-- ===== src/Lock/Tests.antt =====
-- The theorems of the lock at a history with a collector between two uploads.
use ipfs_node.Base.{In, here, ◌≡◌, refl, List, [], ◌∷◌}
use ipfs_node.Lock.{
  shared, exclusive, Event, acquires, releases, init, grant, enqueue, admits, take_lock, request,
  acquire, grant_readers, drain_queue, drain, take_lease, give_back, release, step, run,
}
use ipfs_node.Lock.Invariant.{Inv, run-init-Inv, exclusive_alone}
use ipfs_node.Lock.Fairness.{ids, served, first_ids, run-in_order}

-- An upload, a collector behind it, a second upload behind both; then the first upload ends.
abbrev history : List Event
history = acquires shared ∷ acquires exclusive ∷ acquires shared ∷ releases 0 ∷ []

collector_first : ids (run history init).waiters ≡ 2 ∷ []
unfolding run step acquire request admits grant enqueue take_lock release take_lease give_back drain
    drain_queue grant_readers init
collector_first = refl

run-init-Inv_example : Inv (run history init)
run-init-Inv_example = run-init-Inv history

collector_lease : (run history init).leases ≡ record { id = 1; mode = exclusive } ∷ []
unfolding run step acquire request admits grant enqueue take_lock release take_lease give_back drain
    drain_queue grant_readers init
collector_lease = refl

collector_holds : In (record { id = 1; mode = exclusive }) (run history init).leases
collector_holds = rw collector_lease here

exclusive_alone_example : (run history init).leases ≡ record { id = 1; mode = exclusive } ∷ []
exclusive_alone_example =
    exclusive_alone history (record { id = 1; mode = exclusive }) collector_holds refl

run-in_order_example : ids (served (run history init)) ≡ first_ids (run history init).next_id
run-in_order_example = run-in_order history
