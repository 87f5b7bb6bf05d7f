-- ===== src/RepairDriver.antt =====
-- src/storage/repairCycleDriver.ts: the passes of a repair cycle, started by a schedule, an operator or
-- the timer that continues a cycle. What happens is a sequence of events, and a pass is a number.
pub mod Passes
pub mod Failures
mod Tests
use ipfs_node.Base.{
  ℕ, suc, ◌+◌, Bool, true, false, ◌&&◌, ◌||◌, not, Option, none, some, List, [], ◌∷◌, ◌++◌, ◌==◌,
  leb, is_some, if◌then◌else◌, filter, any, get_or,
}

pub data RepairTrigger : Type 0 where
  startup schedule continuation manual : RepairTrigger

-- How a pass ends.
pub data PassEnd : Type 0 where
  completed incomplete failed : PassEnd

-- `active` is the pass that the driver waits for, `running` the passes that have not ended. `started`
-- numbers the passes, and `abandoned` counts the calls of `onAbandon`.
pub record Driver : Type 0 where
  pub active : Option ℕ
  pub has_timer : Bool
  pub stopped : Bool
  pub consecutive_failures : ℕ
  pub running : List ℕ
  pub started : ℕ
  pub abandoned : ℕ

-- The constructor's state.
abbrev pub new_driver : Driver
new_driver = record {
  active = none;
  has_timer = false;
  stopped = true;
  consecutive_failures = 0;
  running = [];
  started = 0;
  abandoned = 0;
}

-- `DEFAULT_MAX_CONSECUTIVE_FAILURES`
abbrev pub default_max_consecutive_failures : ℕ
default_max_consecutive_failures = 3

abbrev pub is_continuation : RepairTrigger → Bool
is_continuation continuation = true
is_continuation _ = false

-- Setting a timer that is set already changes nothing.
unfoldable pub schedule_continuation : Driver → Driver
schedule_continuation d = record d { has_timer = d.has_timer || not d.stopped }

unfoldable pub cancel_continuation : Driver → Driver
cancel_continuation d = record d { has_timer = false }

unfoldable pub run_pass : RepairTrigger → Driver → Driver
run_pass trigger d = record d {
  consecutive_failures = if is_continuation trigger then d.consecutive_failures else 0;
  active = some d.started;
  running = d.started ∷ d.running;
  started = d.started + 1;
}

unfoldable pub run_automatic : RepairTrigger → Driver → Driver
run_automatic trigger d =
    if d.stopped
    then d
    else if d.has_timer && not (is_continuation trigger)
    then d
    else if is_some d.active
    then if is_continuation trigger then schedule_continuation d else d
    else run_pass trigger d

unfoldable pub start : Driver → Driver
start d = run_automatic startup (record d { stopped = false; consecutive_failures = 0 })

-- The driver, and whether the operator's pass was admitted.
unfoldable pub run_manual : Driver → Driver × Bool
run_manual d = if d.stopped || is_some d.active then (d, false) else (run_pass manual d, true)

unfoldable pub stop : Driver → Driver
stop d = record d { stopped = true; has_timer = false }

-- The callback of the timer.
unfoldable pub on_timer : Driver → Driver
on_timer d = run_automatic continuation (record d { has_timer = false })

unfoldable pub on_pass_failed : ℕ → Driver → Driver
on_pass_failed limit d =
    let failures = d.consecutive_failures + 1 in
    let counted = record d { consecutive_failures = failures } in
    if leb limit failures
    then record (cancel_continuation counted) { abandoned = d.abandoned + 1 }
    else schedule_continuation counted

unfoldable pub on_pass_ended : ℕ → PassEnd → Driver → Driver
on_pass_ended limit completed d = cancel_continuation (record d { consecutive_failures = 0 })
on_pass_ended limit incomplete d = schedule_continuation (record d { consecutive_failures = 0 })
on_pass_ended limit failed d = on_pass_failed limit d

-- `this.active === pass`
abbrev pub is_active : ℕ → Option ℕ → Bool
is_active pass none = false
is_active pass (some p) = p == pass

unfoldable pub clear_active : ℕ → Driver → Driver
clear_active pass d = if is_active pass d.active then record d { active = none } else d

abbrev pub runs : ℕ → List ℕ → Bool
runs pass = any (λ p. p == pass)

-- The handlers of a pass run when it ends, and `clearActive` after them.
pub data Event : Type 0 where
  starts ticks requested stops timer_fires : Event
  ends : ℕ → PassEnd → Event
  cleared : ℕ → Event

-- An event of a pass that cannot happen changes nothing: a pass ends once, its callbacks come after,
-- and the timer fires only while it is set.
unfoldable pub step : ℕ → Event → Driver → Driver
step limit starts d = start d
step limit ticks d = run_automatic schedule d
step limit requested d = (run_manual d).0
step limit stops d = stop d
step limit timer_fires d = if d.has_timer then on_timer d else d
step limit (ends pass result) d =
    if runs pass d.running
    then on_pass_ended limit result (record d { running = filter (λ p. not (p == pass)) d.running })
    else d
step limit (cleared pass) d = if runs pass d.running then d else clear_active pass d

unfoldable pub run : ℕ → List Event → Driver → Driver
run limit [] d = d
run limit (e ∷ es) d = run limit es (step limit e d)
