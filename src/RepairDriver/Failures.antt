-- ===== src/RepairDriver/Failures.antt =====
-- About the failures in a row that src/storage/repairCycleDriver.ts lets a cycle have, counted from the
-- events and not by the driver.
use ipfs_node.Base.{
  ℕ, ◌+◌, ◌<◌, Bool, true, false, ◌≡◌, refl, subst, ◌⊎◌, not, List, [], ◌∷◌, ◌==◌, if◌then◌else◌,
  filter, arith,
}
use ipfs_node.RepairDriver.{
  PassEnd, completed, incomplete, failed, Driver, new_driver, schedule_continuation,
  cancel_continuation, run_pass, run_automatic, start, run_manual, stop, on_timer, on_pass_failed,
  on_pass_ended, clear_active, runs, Event, starts, ticks, requested, stops, timer_fires, ends,
  cleared, step, run,
}
use ipfs_node.RepairDriver.Passes.{OneAtMost, run-new_driver-IsOrderly}

abbrev after_end : PassEnd → ℕ → ℕ
after_end failed n = n + 1
after_end _ n = 0

abbrev began_none : Driver → Driver → Bool
began_none d after = after.started == d.started

-- The failures in a row after an event, where `n` came before it: a pass that fails adds one, and one
-- that ends otherwise, a start, and a tick or a request that begins a pass put it back to zero.
abbrev failures_after : ℕ → Event → Driver → ℕ → ℕ
failures_after limit starts d n = 0
failures_after limit ticks d n = if began_none d (step limit ticks d) then n else 0
failures_after limit requested d n = if began_none d (step limit requested d) then n else 0
failures_after limit stops d n = n
failures_after limit timer_fires d n = n
failures_after limit (ends pass result) d n = if runs pass d.running then after_end result n else n
failures_after limit (cleared pass) d n = n

abbrev pub failures_in_a_row : ℕ → List Event → Driver → ℕ → ℕ
failures_in_a_row limit [] d n = n
failures_in_a_row limit (e ∷ es) d n =
    failures_in_a_row limit es (step limit e d) (failures_after limit e d n)

module _ (limit : ℕ) where
  ended_counts :
      (result : PassEnd) (d : Driver)
      → (on_pass_ended limit result d).consecutive_failures
        ≡ after_end result d.consecutive_failures
  unfolding on_pass_ended on_pass_failed cancel_continuation schedule_continuation
  ended_counts completed d = refl
  ended_counts incomplete d = refl
  ended_counts failed d = ground arith

  step_counts :
      (e : Event) (d : Driver)
      → (step limit e d).consecutive_failures ≡ failures_after limit e d d.consecutive_failures
  unfolding step start run_manual stop on_timer clear_active run_automatic run_pass
      schedule_continuation
  step_counts starts d = ground arith
  step_counts ticks d = ground arith
  step_counts requested d = ground arith
  step_counts stops d = refl
  step_counts timer_fires d = ground arith
  step_counts (ends pass result) d =
      ground (
        arith,
        ended_counts result (record d { running = filter (λ p. not (p == pass)) d.running }),
      )
  step_counts (cleared pass) d = ground arith

  run_counts :
      (es : List Event) (d : Driver)
      → (run limit es d).consecutive_failures ≡ failures_in_a_row limit es d d.consecutive_failures
  unfolding run
  run_counts [] d = refl
  run_counts (e ∷ es) d =
      subst
        (λ n.
          (run limit es (step limit e d)).consecutive_failures
          ≡ failures_in_a_row limit es (step limit e d) n)
        (step_counts e d) (run_counts es (step limit e d))

-- After any events, with a limit of at least one failure: at most one pass runs, and the driver
-- waits for it; a stopped driver has set no timer; and while the timer is set or a pass runs, fewer
-- passes than the limit have failed in a row, where a pass that ends otherwise, a start, and a tick
-- or a request that begins a pass end the row.
pub run-failures_in_a_row :
    (limit : ℕ) (es : List Event)
    → 0 < limit
    → let d = run limit es new_driver in
      let failures = failures_in_a_row limit es new_driver 0 in
      OneAtMost d.active d.running
      × (d.stopped ≡ true → d.has_timer ≡ false)
      × (d.has_timer ≡ true → failures < limit)
      × (d.running ≡ [] ⊎ (failures < limit))
run-failures_in_a_row limit es positive =
    let q = run-new_driver-IsOrderly limit positive es in
    subst
      (λ n.
        OneAtMost (run limit es new_driver).active (run limit es new_driver).running
        × ((run limit es new_driver).stopped ≡ true → (run limit es new_driver).has_timer ≡ false)
        × ((run limit es new_driver).has_timer ≡ true → n < limit)
        × ((run limit es new_driver).running ≡ [] ⊎ (n < limit)))
      (run_counts limit es new_driver) (q.one_at_most, q.silent, q.within, q.running_within)
