-- ===== src/Idle.antt =====
-- cmd/worker/idle.go: the tracker of running tasks, and the poller that drains an idle worker. The
-- clock is an argument; instants are numbers of nanoseconds and durations integers of them.
pub mod Exit
pub mod Tests
use media_processor.Prelude.{ℕ, Bool, true, false, ◌&&◌, List, [], ◌∷◌, if◌then◌else◌}
use media_processor.Prelude.Int.{ℤ, pos, ◌+ℤ◌, ◌-ℤ◌, sub_ℕ, ltb_ℤ, leb_ℤ, eqb_ℤ}

-- `idleTracker`.
pub record Tracker : Type 0 where
  pub in_flight : ℤ
  pub last_activity : ℕ

-- `newIdleTracker`.
unfoldable pub new_idle_tracker : ℕ → Tracker
new_idle_tracker now = record { in_flight = pos 0; last_activity = now }

unfoldable pub mark_start : Tracker → ℕ → Tracker
mark_start t now = record { in_flight = t.in_flight +ℤ pos 1; last_activity = now }

unfoldable pub mark_end : Tracker → ℕ → Tracker
mark_end t now = record { in_flight = t.in_flight -ℤ pos 1; last_activity = now }

unfoldable pub snapshot : Tracker → ℕ → ℤ × ℤ
snapshot t now = (t.in_flight, sub_ℕ now t.last_activity)

-- `evaluate`: what the gauge is set to, and whether the drain is triggered.
unfoldable pub evaluate : ℤ → Tracker → ℕ → ℤ × Bool
unfolding snapshot
evaluate idle_after t now =
    let (running, elapsed) = snapshot t now in
    let left = idle_after -ℤ elapsed in
    let remaining =
      if eqb_ℤ running (pos 0) then (if ltb_ℤ left (pos 0) then pos 0 else left) else idle_after in
    (remaining, eqb_ℤ running (pos 0) && leb_ℤ idle_after elapsed)

-- What the `select` of `run` receives; a tick finds the tracker as the tasks have left it.
pub data Signal : Type 0 where
  context_done : Signal
  tick : Tracker → ℕ → Signal

-- `idlePoller.run`: whether the drain was triggered.
unfoldable pub run : ℤ → List Signal → Bool
run idle_after [] = false
run idle_after (context_done ∷ ss) = false
run idle_after (tick t now ∷ ss) =
    let rest = run idle_after ss in if (evaluate idle_after t now).1 then true else rest

-- The interceptors: a task starts and ends around what they wrap.
pub data TaskEvent : Type 0 where
  task_starts task_ends : ℕ → TaskEvent

unfoldable pub observe : Tracker → TaskEvent → Tracker
observe t (task_starts now) = mark_start t now
observe t (task_ends now) = mark_end t now

unfoldable pub observe_all : Tracker → List TaskEvent → Tracker
unfolding observe
observe_all t [] = t
observe_all t (e ∷ es) = observe_all (observe t e) es
