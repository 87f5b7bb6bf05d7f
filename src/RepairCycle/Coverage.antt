-- ===== src/RepairCycle/Coverage.antt =====
-- About what a repair cycle hands out (src/storage/repairCycle.ts).
use ipfs_node.Base.Texts.{Text}
use ipfs_node.Base.{
  ◌≤◌, ◌≡◌, refl, sym, subst, true, false, not, inl, inr, Option, none, some, List, [], ◌∷◌, ◌++◌,
  arith, length, take, drop, In, filter-In, Bool-cases, ltb, leb, length-take, length-drop,
  length-append, ◌∙◌,
}
use ipfs_node.Registry.{contains}
use ipfs_node.Registry.Ownership.{contains-In}
use ipfs_node.Sweep.{sweep_batches, repair}
use ipfs_node.RepairCycle.{
  RepairCycle, Scans, next_repair_cycle_batch, reset_repair_cycle, batch_of, advance, fresh_in,
  catch_up, pass_over, current_cycle, start_cycle, resume_index, max_catch_up_rounds,
}
use ipfs_node.RepairCycle.Positions.{take-add, take-append_within, take-all, resume_index-le}
use ipfs_node.RepairCycle.State.{
  Event, pass, restart, Drive, before_pass, drive_pass, drive, idle, drive_all,
}

-- A cycle that was not resumed has handed out exactly what stands before its index.
record Exact (c : RepairCycle) (handed : List Text) : Type 0 where
  within : c.index ≤ length c.cids
  exact : c.resumed ≡ false → handed ≡ take c.index c.cids

Holds : Option RepairCycle → List Text → Type 0
Holds none handed = Unit
Holds (some c) handed = Exact c handed

start_cycle-Exact : (cids : List Text) → Exact (start_cycle cids none) []
unfolding start_cycle resume_index
start_cycle-Exact cids = record { within = omega arith; exact = λ r. refl }

resumed-Exact :
    (cids : List Text) (c : Text) (handed : List Text) → Exact (start_cycle cids (some c)) handed
unfolding start_cycle
resumed-Exact cids c handed = record { within = resume_index-le cids (some c); exact = λ r. cc }

current_cycle-Exact :
    (scans : Scans) (d : Drive)
    → Holds d.cycle d.handed_out
    → Exact (current_cycle scans d.cursor d.cycle) (before_pass d)
unfolding current_cycle Holds
current_cycle-Exact scans d h = go d.cycle d.cursor h
  where
    go :
        (cycle : Option RepairCycle) (cursor : Option Text)
        → Holds cycle d.handed_out
        → Exact
            (current_cycle scans cursor cycle)
            (elim cursor [ none ↦ [] | some c ↦ d.handed_out ])
    go none none k = start_cycle-Exact scans.first
    go none (some c) k = resumed-Exact scans.first c d.handed_out
    go (some c) none k = start_cycle-Exact scans.first
    go (some c) (some k) x = x

advance-Exact :
    (c : RepairCycle) (handed : List Text)
    → Exact c handed
    → Exact (advance c) (handed ++ batch_of c)
unfolding advance batch_of
advance-Exact c handed x = record {
  within = omega (
    arith,
    x.within,
    length-take (sweep_batches repair) (drop c.index c.cids),
    length-drop c.index c.cids,
  );
  exact = λ r. rw (x.exact r) (take-add c.index (sweep_batches repair) c.cids);
}

catch_up-Exact :
    (c : RepairCycle) (fresh handed : List Text) → Exact c handed → Exact (catch_up c fresh) handed
catch_up-Exact c fresh handed x = record {
  within = omega (arith, x.within, length-append c.cids fresh);
  exact = λ r. x.exact r ∙ sym (take-append_within c.index c.cids fresh x.within);
}

cids-pass_over :
    (c : RepairCycle) (cursor : Option Text) (found : List Text)
    → (pass_over c cursor found).1.cids ≡ batch_of c
unfolding pass_over
cids-pass_over c cursor found = ground arith

pass_over-Holds :
    (c : RepairCycle) (cursor : Option Text) (found handed : List Text)
    → Exact c handed
    → Holds (pass_over c cursor found).0 (handed ++ batch_of c)
unfolding pass_over Holds
pass_over-Holds c cursor found handed x =
    let moved = advance-Exact c handed x in
    elim (Bool-cases (ltb (advance c).index (length (advance c).cids))) [
      | inl e ↦ rw e moved
      | inr e ↦ elim (Bool-cases (leb (length (fresh_in (advance c) found)) 0)) [
        | inl k ↦ rw (e, k) tt
        | inr k ↦ elim (Bool-cases (ltb c.refreshes max_catch_up_rounds)) [
          | inl l ↦ rw (e, k, l) (catch_up-Exact (advance c) _ _ moved)
          | inr l ↦ rw (e, k, l) tt
        ]
      ]
    ]

not_fresh :
    (c : RepairCycle) (found : List Text) (k : Text)
    → length (fresh_in c found) ≡ 0
    → In k found
    → In k c.cids
unfolding fresh_in
not_fresh c found k e m = elim (Bool-cases (contains k c.cids)) [
  | inl t ↦ contains-In k c.cids t
  | inr t ↦
      absurd (occupied _ (filter-In (λ j. not (contains j c.cids)) found m (ground (arith, t))) e)
]
  where
    occupied : (xs : List Text) → In k xs → length xs ≡ 0 → ⊥
    occupied [] n z = elim n [ ]
    occupied (x ∷ xs) n z = omega (arith, z)

-- A pass that ends a cycle reached the end of its list.
ended :
    (c : RepairCycle) (cursor : Option Text) (found : List Text)
    → let b = (pass_over c cursor found).1 in
      b.cycle_completed ≡ true
      → b.coverage_proven ≡ true
      → b.uncovered ≡ 0
      → (c.resumed ≡ false)
        × (length (advance c).cids ≤ (advance c).index)
        × (length (fresh_in (advance c) found) ≡ 0)
unfolding pass_over
ended c cursor found done proven none_left = ground (arith, done, proven, none_left)

drive-Holds :
    (d : Drive) (e : Event)
    → Holds d.cycle d.handed_out
    → Holds (drive d e).cycle (drive d e).handed_out
unfolding drive drive_pass next_repair_cycle_batch reset_repair_cycle Holds
drive-Holds d restart h = tt
drive-Holds d (pass scans) h =
    let c = current_cycle scans d.cursor d.cycle in
    subst (λ b. Holds (pass_over c d.cursor scans.last).0 (before_pass d ++ b))
      (sym (cids-pass_over c d.cursor scans.last))
      (pass_over-Holds c d.cursor scans.last (before_pass d) (current_cycle-Exact scans d h))

drive_all-Holds :
    (d : Drive) (es : List Event)
    → Holds d.cycle d.handed_out
    → Holds (drive_all d es).cycle (drive_all d es).handed_out
unfolding drive_all
drive_all-Holds d [] h = h
drive_all-Holds d (e ∷ es) h = drive_all-Holds (drive d e) es (drive-Holds d e h)

-- After any passes and restarts: a pass that ends a cycle, claims its coverage and leaves nothing
-- uncovered has found no candidate in its last scan that the cycle did not hand out.
pub cycle_covers :
    (es : List Event) (scans : Scans)
    → (drive_pass (drive_all idle es) scans).1.cycle_completed ≡ true
    → (drive_pass (drive_all idle es) scans).1.coverage_proven ≡ true
    → (drive_pass (drive_all idle es) scans).1.uncovered ≡ 0
    → (k : Text) → In k scans.last
    → In k (drive_pass (drive_all idle es) scans).0.handed_out
unfolding drive_pass next_repair_cycle_batch Holds advance
cycle_covers es scans done proven none_left k m =
    let d = drive_all idle es in
    let c = current_cycle scans d.cursor d.cycle in
    let x =
      advance-Exact c (before_pass d) (current_cycle-Exact scans d (drive_all-Holds idle es tt)) in
    let (fresh_cycle, at_end, nothing) = ended c d.cursor scans.last done proven none_left in
    let all_handed = (x.exact fresh_cycle) ∙ take-all (advance c).index (advance c).cids at_end in
    subst (λ b. In k (before_pass d ++ b)) (sym (cids-pass_over c d.cursor scans.last))
      (subst (λ l. In k l) (sym all_handed) (not_fresh (advance c) scans.last k nothing m))
