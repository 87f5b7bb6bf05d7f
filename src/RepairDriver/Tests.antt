-- ===== src/RepairDriver/Tests.antt =====
-- The theorems on the repair driver at concrete events, and a cycle that is given up.
use ipfs_node.RepairDriver.Failures.{failures_in_a_row, run-failures_in_a_row}
use ipfs_node.Base.{◌<◌, ◌⊎◌, true, ◌≡◌, refl, false, List, [], ◌∷◌, arith}
use ipfs_node.RepairDriver.{
  Driver, new_driver, default_max_consecutive_failures, schedule_continuation, cancel_continuation,
  run_pass, run_automatic, start, on_timer, on_pass_failed, on_pass_ended, clear_active, Event,
  starts, ticks, requested, timer_fires, ends, cleared, incomplete, failed, step, run, stop,
}
use ipfs_node.RepairDriver.Passes.{OneAtMost, done, no_tick, no_request, no_end, stop-run}

abbrev three_failures : List Event
three_failures =
    starts
    ∷ ends 0 failed
    ∷ cleared 0
    ∷ timer_fires
    ∷ ends 1 failed
    ∷ cleared 1
    ∷ timer_fires
    ∷ ends 2 failed
    ∷ []

abandoned_once :
    let d = run default_max_consecutive_failures three_failures new_driver in
    (d.abandoned ≡ 1) × (d.has_timer ≡ false)
unfolding run step start run_automatic run_pass on_timer on_pass_ended on_pass_failed
    schedule_continuation cancel_continuation clear_active
abandoned_once = (refl, refl)

abbrev after_two : List Event
after_two = starts ∷ ends 0 failed ∷ cleared 0 ∷ timer_fires ∷ ends 1 failed ∷ []

run-failures_in_a_row_example :
    let d = run default_max_consecutive_failures after_two new_driver in
    let failures = failures_in_a_row default_max_consecutive_failures after_two new_driver 0 in
    OneAtMost d.active d.running
    × (d.stopped ≡ true → d.has_timer ≡ false)
    × (d.has_timer ≡ true → failures < default_max_consecutive_failures)
    × (d.running ≡ [] ⊎ (failures < default_max_consecutive_failures))
run-failures_in_a_row_example =
    run-failures_in_a_row default_max_consecutive_failures after_two (omega arith)

abbrev first_pass : Driver
first_pass = run default_max_consecutive_failures (starts ∷ []) new_driver

stop-run_example :
    (run default_max_consecutive_failures
      (ticks ∷ ends 0 incomplete ∷ requested ∷ [])
      (stop first_pass)).started
    ≡ first_pass.started
stop-run_example =
    stop-run default_max_consecutive_failures (ticks ∷ ends 0 incomplete ∷ requested ∷ [])
      first_pass (no_tick (no_end (no_request done)))
