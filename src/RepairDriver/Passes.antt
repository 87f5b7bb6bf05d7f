-- ===== src/RepairDriver/Passes.antt =====
-- About the passes that run and the timer that continues a cycle (src/storage/repairCycleDriver.ts).
use ipfs_node.Base.{
  ℕ, ◌+◌, ◌<◌, Bool, true, false, ◌≡◌, refl, sym, subst, ◌∙◌, ◌⊎◌, inl, inr, ◌&&◌, ◌||◌, not,
  Option, none, some, List, [], ◌∷◌, ◌==◌, leb, is_some, if◌then◌else◌, filter, arith,
}
use ipfs_node.RepairDriver.{
  RepairTrigger, startup, schedule, continuation, manual, PassEnd, completed, incomplete, failed,
  Driver, new_driver, is_continuation, schedule_continuation, cancel_continuation, run_pass,
  run_automatic, start, run_manual, stop, on_timer, on_pass_failed, on_pass_ended, is_active,
  clear_active, runs, Event, starts, ticks, requested, stops, timer_fires, ends, cleared, step, run,
}

-- No pass runs, or one, and the driver waits for it.
pub data OneAtMost : Option ℕ → List ℕ → Type 0 where
  idle : {a : Option ℕ} → OneAtMost a []
  busy : {p : ℕ} → OneAtMost (some p) (p ∷ [])

pub record IsOrderly (limit : ℕ) (d : Driver) : Type 0 where
  pub one_at_most : OneAtMost d.active d.running
  -- A stopped driver has no timer.
  pub silent : d.stopped ≡ true → d.has_timer ≡ false
  -- A cycle is continued only within the budget of failures.
  pub within : d.has_timer ≡ true → d.consecutive_failures < limit
  pub running_within : d.running ≡ [] ⊎ (d.consecutive_failures < limit)

if_keeps {ℓ κ} :
    {A : Type ℓ} (P : A → Type κ) (t : Bool) {x y : A}
    → (t ≡ true → P x)
    → (t ≡ false → P y)
    → P (if t then x else y)
if_keeps P true f g = f refl
if_keeps P false f g = g refl

alone :
    (a : Option ℕ) (n : ℕ) (ps : List ℕ)
    → OneAtMost a ps
    → is_some a ≡ false
    → OneAtMost (some n) (n ∷ ps)
alone a n [] idle e = busy
alone a n ps busy e = cc

-- The pass that ends was the only one.
last_ended :
    (a : Option ℕ) (ps : List ℕ) (pass : ℕ)
    → OneAtMost a ps
    → runs pass ps ≡ true
    → filter (λ p. not (p == pass)) ps ≡ []
last_ended a ps pass idle e = refl
last_ended a ps pass (busy {p = p}) e = ground (arith, e)

module _ (limit : ℕ) (positive : 0 < limit) where
  run_pass-IsOrderly :
      (trigger : RepairTrigger) (d : Driver)
      → IsOrderly limit d
      → is_some d.active ≡ false
      → d.consecutive_failures < limit ⊎ (is_continuation trigger ≡ false)
      → IsOrderly limit (run_pass trigger d)
  unfolding run_pass
  run_pass-IsOrderly trigger d q free budget = record {
    one_at_most = alone d.active d.started d.running q.one_at_most free;
    silent = q.silent;
    within = λ h. within_budget;
    running_within = inr within_budget;
  }
    where
      within_budget : (if is_continuation trigger then d.consecutive_failures else 0) < limit
      within_budget = elim budget [
        | inl n ↦ if_keeps (λ m. m < limit) (is_continuation trigger) (λ t. n) (λ t. positive)
        | inr e ↦ rw e positive
      ]

  schedule_continuation-IsOrderly :
      (d : Driver)
      → IsOrderly limit d
      → d.consecutive_failures < limit
      → IsOrderly limit (schedule_continuation d)
  unfolding schedule_continuation
  schedule_continuation-IsOrderly d q budget = record {
    one_at_most = q.one_at_most;
    silent = λ e. rw (q.silent e, e) refl;
    within = λ e. budget;
    running_within = inr budget;
  }

  run_automatic-IsOrderly :
      (trigger : RepairTrigger) (d : Driver)
      → IsOrderly limit d
      → d.consecutive_failures < limit ⊎ (is_continuation trigger ≡ false)
      → IsOrderly limit (run_automatic trigger d)
  unfolding run_automatic
  run_automatic-IsOrderly trigger d q budget =
      if_keeps (IsOrderly limit) d.stopped (λ t. q)
        (λ t.
          if_keeps (IsOrderly limit) (d.has_timer && not (is_continuation trigger)) (λ u. q)
            (λ u.
              if_keeps (IsOrderly limit) (is_some d.active)
                (λ x.
                  if_keeps (IsOrderly limit) (is_continuation trigger)
                    (λ y. schedule_continuation-IsOrderly d q (counted y)) (λ y. q))
                (λ x. run_pass-IsOrderly trigger d q x budget)))
    where
      counted : is_continuation trigger ≡ true → d.consecutive_failures < limit
      counted y = elim budget [ inl n ↦ n | inr e ↦ cc (e, y) ]

  ended-IsOrderly :
      (d : Driver) (pass : ℕ) (result : PassEnd)
      → IsOrderly limit d
      → d.running ≡ []
      → IsOrderly limit (on_pass_ended limit result d)
  unfolding on_pass_ended on_pass_failed cancel_continuation
  ended-IsOrderly d pass completed q none_left = record {
    one_at_most = q.one_at_most;
    silent = λ e. refl;
    within = λ e. cc;
    running_within = inl none_left;
  }
  ended-IsOrderly d pass incomplete q none_left =
      schedule_continuation-IsOrderly (record d { consecutive_failures = 0 })
        (record {
          one_at_most = q.one_at_most;
          silent = q.silent;
          within = λ e. positive;
          running_within = inl none_left;
        })
        positive
  ended-IsOrderly d pass failed q none_left =
      if_keeps (IsOrderly limit) (leb limit (d.consecutive_failures + 1))
        (λ t. record {
          one_at_most = q.one_at_most;
          silent = λ e. refl;
          within = λ e. cc;
          running_within = inl none_left;
        })
        (λ t. scheduled (ground (arith, t)))
    where
      scheduled :
          d.consecutive_failures + 1 < limit
          → IsOrderly limit (
              schedule_continuation
                (record d { consecutive_failures = d.consecutive_failures + 1 }))
      scheduled n =
          schedule_continuation-IsOrderly _
            (record {
              one_at_most = q.one_at_most;
              silent = q.silent;
              within = λ e. n;
              running_within = inl none_left;
            })
            n

  step-IsOrderly : (e : Event) (d : Driver) → IsOrderly limit d → IsOrderly limit (step limit e d)
  unfolding step start run_manual stop on_timer clear_active
  step-IsOrderly starts d q =
      run_automatic-IsOrderly startup (record d { stopped = false; consecutive_failures = 0 })
        (record {
          one_at_most = q.one_at_most;
          silent = λ e. cc;
          within = λ e. positive;
          running_within = inr positive;
        })
        (inl positive)
  step-IsOrderly ticks d q = run_automatic-IsOrderly schedule d q (inr refl)
  step-IsOrderly requested d q =
      if_keeps (λ (x : Driver × Bool). IsOrderly limit x.0) (d.stopped || is_some d.active) (λ t. q)
        (λ t. run_pass-IsOrderly manual d q (ground (arith, t)) (inr refl))
  step-IsOrderly stops d q = record {
    one_at_most = q.one_at_most;
    silent = λ e. refl;
    within = λ e. cc;
    running_within = q.running_within;
  }
  step-IsOrderly timer_fires d q =
      if_keeps (IsOrderly limit) d.has_timer
        (λ t.
          run_automatic-IsOrderly continuation (record d { has_timer = false })
            (record {
              one_at_most = q.one_at_most;
              silent = λ e. refl;
              within = λ e. cc;
              running_within = q.running_within;
            })
            (inl (q.within t)))
        (λ t. q)
  step-IsOrderly (ends pass result) d q =
      if_keeps (IsOrderly limit) (runs pass d.running)
        (λ t.
          let none_left = last_ended d.active d.running pass q.one_at_most t in
          ended-IsOrderly _ pass result
            (record {
              one_at_most = subst (OneAtMost d.active) (sym none_left) idle;
              silent = q.silent;
              within = q.within;
              running_within = inl none_left;
            })
            none_left)
        (λ t. q)
  step-IsOrderly (cleared pass) d q =
      if_keeps (IsOrderly limit) (runs pass d.running) (λ t. q)
        (λ t.
          if_keeps (IsOrderly limit) (is_active pass d.active)
            (λ x. record {
              one_at_most = ended d.active d.running q.one_at_most t x;
              silent = q.silent;
              within = q.within;
              running_within = q.running_within;
            })
            (λ x. q))
    where
      wrong : (b : Bool) → (b || false) ≡ false → b ≡ true → ⊥
      wrong b e f = ground (arith, e, f)

      ended :
          (a : Option ℕ) (ps : List ℕ)
          → OneAtMost a ps
          → runs pass ps ≡ false
          → is_active pass a ≡ true
          → OneAtMost none ps
      ended a ps idle e f = idle
      ended a ps busy e f = absurd (wrong _ e f)

  run-IsOrderly :
      (es : List Event) (d : Driver) → IsOrderly limit d → IsOrderly limit (run limit es d)
  unfolding run
  run-IsOrderly [] d q = q
  run-IsOrderly (e ∷ es) d q = run-IsOrderly es (step limit e d) (step-IsOrderly e d q)

  -- After any events, with a limit of at least one failure: at most one pass runs, and the driver
  -- waits for it; a stopped driver has set no timer; and while the timer is set, the count that the
  -- driver keeps is below the limit.
  pub run-new_driver-IsOrderly : (es : List Event) → IsOrderly limit (run limit es new_driver)
  run-new_driver-IsOrderly es = run-IsOrderly es new_driver (record {
    one_at_most = idle;
    silent = λ e. refl;
    within = λ e. cc;
    running_within = inl refl;
  })

pub data NoStart : List Event → Type 0 where
  done : NoStart []
  no_tick : {es : List Event} → NoStart es → NoStart (ticks ∷ es)
  no_request : {es : List Event} → NoStart es → NoStart (requested ∷ es)
  no_stop : {es : List Event} → NoStart es → NoStart (stops ∷ es)
  no_timer : {es : List Event} → NoStart es → NoStart (timer_fires ∷ es)
  no_end :
      {pass : ℕ} {result : PassEnd} {es : List Event} → NoStart es → NoStart (ends pass result ∷ es)
  no_clear : {pass : ℕ} {es : List Event} → NoStart es → NoStart (cleared pass ∷ es)

-- The driver is stopped, and has started no pass since.
record IsQuiet (n : ℕ) (d : Driver) : Type 0 where
  pub is_stopped : d.stopped ≡ true
  pub no_pass : d.started ≡ n

module _ (limit n : ℕ) where
  run_automatic-IsQuiet :
      (trigger : RepairTrigger) (d : Driver) → IsQuiet n d → IsQuiet n (run_automatic trigger d)
  unfolding run_automatic
  run_automatic-IsQuiet trigger d q =
      if_keeps (IsQuiet n) d.stopped (λ t. q) (λ t. absurd (wrong q.is_stopped t))
    where
      wrong : d.stopped ≡ true → d.stopped ≡ false → ⊥
      wrong x y = cc

  quiet :
      (d after : Driver)
      → IsQuiet n d
      → after.stopped ≡ d.stopped
      → after.started ≡ d.started
      → IsQuiet n after
  quiet d after q x y = record { is_stopped = x ∙ q.is_stopped; no_pass = y ∙ q.no_pass }

  on_pass_ended-IsQuiet :
      (result : PassEnd) (d : Driver) → IsQuiet n d → IsQuiet n (on_pass_ended limit result d)
  unfolding on_pass_ended on_pass_failed cancel_continuation schedule_continuation
  on_pass_ended-IsQuiet completed d q = quiet d _ q refl refl
  on_pass_ended-IsQuiet incomplete d q = quiet d _ q refl refl
  on_pass_ended-IsQuiet failed d q =
      if_keeps (IsQuiet n) (leb limit (d.consecutive_failures + 1)) (λ t. quiet d _ q refl refl)
        (λ t. quiet d _ q refl refl)

  run-IsQuiet :
      (es : List Event) (d : Driver) → NoStart es → IsQuiet n d → IsQuiet n (run limit es d)
  unfolding run step run_manual stop on_timer clear_active
  run-IsQuiet [] d done q = q
  run-IsQuiet (_ ∷ es) d (no_tick more) q =
      run-IsQuiet es _ more (run_automatic-IsQuiet schedule d q)
  run-IsQuiet (_ ∷ es) d (no_request more) q = run-IsQuiet es _ more (
      if_keeps (λ (x : Driver × Bool). IsQuiet n x.0) (d.stopped || is_some d.active) (λ t. q)
        (λ t. absurd (wrong d.stopped (is_some d.active) q.is_stopped t)))
    where
      wrong : (a b : Bool) → a ≡ true → (a || b) ≡ false → ⊥
      wrong a b x y = ground (arith, x, y)
  run-IsQuiet (_ ∷ es) d (no_stop more) q =
      run-IsQuiet es _ more (record { is_stopped = refl; no_pass = q.no_pass })
  run-IsQuiet (_ ∷ es) d (no_timer more) q = run-IsQuiet es _ more (
      if_keeps (IsQuiet n) d.has_timer
        (λ t.
          run_automatic-IsQuiet continuation (record d { has_timer = false })
            (quiet d _ q refl refl))
        (λ t. q))
  run-IsQuiet (_ ∷ es) d (no_end {pass = pass} {result = result} more) q = run-IsQuiet es _ more (
      if_keeps (IsQuiet n) (runs pass d.running)
        (λ t. on_pass_ended-IsQuiet result _ (quiet d _ q refl refl)) (λ t. q))
  run-IsQuiet (_ ∷ es) d (no_clear {pass = pass} more) q = run-IsQuiet es _ more (
      if_keeps (IsQuiet n) (runs pass d.running) (λ t. q)
        (λ t. if_keeps (IsQuiet n) (is_active pass d.active) (λ x. quiet d _ q refl refl) (λ x. q)))

-- From a stop to the next start no pass begins, whatever ticks, requests, timers and passes that end
-- come between.
pub stop-run :
    (limit : ℕ) (es : List Event) (d : Driver)
    → NoStart es
    → (run limit es (stop d)).started ≡ d.started
unfolding stop
stop-run limit es d apart =
    (run-IsQuiet limit d.started es _ apart (record { is_stopped = refl; no_pass = refl })).no_pass
