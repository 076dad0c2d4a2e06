-- ===== src/Idle/Exit.antt =====
-- cmd/worker/idle.go: when an idle worker exits.
use media_processor.Prelude.{
  ℕ, suc, ◌+◌, ◌≤◌, ◌≡◌, ◌↔◌, ◌⊎◌, refl, sym, ◌∙◌, inl, inr, Bool, true, false, List, [], ◌∷◌,
  arith, Bool-cases,
}
use media_processor.Prelude.Int.{ℤ, pos, ◌+ℤ◌, ◌-ℤ◌, ◌≤ℤ◌, sub_ℕ, eq_of_parts}
use media_processor.Idle.{
  Tracker, new_idle_tracker, mark_start, mark_end, evaluate, Signal, context_done, tick, run,
  TaskEvent, task_starts, task_ends, observe, observe_all,
}

-- The tasks running after a history, in which no task ends before it started, and the instant of
-- the last event; the clock does not run backwards.
pub data History : List TaskEvent → ℕ → ℕ → ℕ → ℕ → Type 0 where
  over : {running last : ℕ} → History [] running last running last
  starts :
      {es : List TaskEvent} {running last now r l : ℕ}
      → last ≤ now
      → History es (suc running) now r l
      → History (task_starts now ∷ es) running last r l
  ends :
      {es : List TaskEvent} {running last now r l : ℕ}
      → last ≤ now
      → History es running now r l
      → History (task_ends now ∷ es) (suc running) last r l

observed :
    {es : List TaskEvent} {running last r l : ℕ}
    → History es running last r l
    → (t : Tracker) → t ≡ record { in_flight = pos running; last_activity = last }
    → observe_all t es ≡ record { in_flight = pos r; last_activity = l }
unfolding observe_all observe mark_start mark_end ◌+ℤ◌ ◌-ℤ◌
observed over t e = e
observed (starts {now} h rest) t e = observed rest _ (ground arith)
observed (ends {now} h rest) t e = observed rest _ (ground arith)

-- What a poll tells of the running tasks and the last event.
abbrev pub Polls : ℕ → ℕ → ℕ → ℕ → ℤ × Bool → Type 0
Polls window running last now (remaining, drains) =
    ((drains ≡ true) ↔ ((running ≡ 0) × (last + window ≤ now)))
    × (pos 0 ≤ℤ remaining)
    × (remaining ≤ℤ pos window)
    × ((drains ≡ false) ⊎ (remaining ≡ pos 0))

evaluate-Polls :
    (window running last now : ℕ)
    → last ≤ now
    → Polls window running last now
        (evaluate (pos window) (record { in_flight = pos running; last_activity = last }) now)
unfolding evaluate ◌-ℤ◌
evaluate-Polls window running last now later = (
  (λ h. (ground arith, ground arith), λ h. ground arith),
  ground arith,
  ground arith,
  ground arith,
)

-- After any history of tasks, a poll triggers the drain exactly if no task runs and the idle window
-- has passed since the last event; the gauge stays between 0 and the window, and is 0 when the
-- drain starts.
pub evaluate_idle :
    {es : List TaskEvent} {start running last : ℕ} (window now : ℕ)
    → History es 0 start running last
    → last ≤ now
    → Polls window running last now
        (evaluate (pos window) (observe_all (new_idle_tracker start) es) now)
unfolding new_idle_tracker
evaluate_idle {running} {last} window now h later =
    rw (observed h _ refl) (evaluate-Polls window running last now later)

-- A tick that finds the worker idle.
abbrev pub IsIdle : ℤ → Signal → Type 0
IsIdle window context_done = ⊥
IsIdle window (tick t now) = (t.in_flight ≡ pos 0) × (window ≤ℤ sub_ℕ now t.last_activity)

-- The poller has received an idle tick, and the context was live and no earlier tick idle.
abbrev pub FirstIdle : ℤ → List Signal → Type 0
FirstIdle window [] = ⊥
FirstIdle window (context_done ∷ ss) = ⊥
FirstIdle window (tick t now ∷ ss) =
    IsIdle window (tick t now) ⊎ ((¬ IsIdle window (tick t now)) × FirstIdle window ss)

evaluate_iff :
    (window : ℤ) (t : Tracker) (now : ℕ)
    → ((evaluate window t now).1 ≡ true) ↔ IsIdle window (tick t now)
unfolding evaluate
evaluate_iff window t now = (λ h. (eq_of_parts _ _ (ground arith), ground arith), λ h. ground arith)

go_on :
    (window : ℤ) (t : Tracker) (now : ℕ) (ss : List Signal)
    → (evaluate window t now).1 ≡ false
    → run window (tick t now ∷ ss) ≡ run window ss
unfolding run
go_on window t now ss e = rw e

stop_at :
    (window : ℤ) (t : Tracker) (now : ℕ) (ss : List Signal)
    → (evaluate window t now).1 ≡ true
    → run window (tick t now ∷ ss) ≡ true
unfolding run
stop_at window t now ss e = rw e

run_nil :
    (window : ℤ) (ss : List Signal)
    → (run window [] ≡ false) × (run window (context_done ∷ ss) ≡ false)
unfolding run
run_nil window ss = (refl, refl)

-- The poller drains the worker exactly if a tick finds it idle before the context is done.
run_iff : (window : ℤ) (ss : List Signal) → (run window ss ≡ true) ↔ FirstIdle window ss
run_iff window [] = (λ h. cc ((run_nil window []).0), λ h. absurd h)
run_iff window (context_done ∷ ss) = (λ h. cc ((run_nil window ss).1), λ h. absurd h)
run_iff window (tick t now ∷ ss) = elim (Bool-cases (evaluate window t now).1) [
  | inl e ↦ (λ h. inl ((evaluate_iff window t now).0 e), λ h. stop_at window t now ss e)
  | inr e ↦
      let same = go_on window t now ss e in
      let busy : ¬ IsIdle window (tick t now) = λ k. cc ((evaluate_iff window t now).1 k) in
      (
        λ h. inr (busy, (run_iff window ss).0 (sym same ∙ h)),
        λ h. same ∙ elim h [ inl k ↦ absurd (busy k) | inr (_, k) ↦ (run_iff window ss).1 k ],
      )
]
