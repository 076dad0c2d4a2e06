-- ===== src/Idle/Tests.antt =====
-- Instances of the poller's theorems.
use media_processor.Prelude.{List, [], ◌∷◌, arith}
use media_processor.Prelude.Int.{pos}
use media_processor.Idle.{
  new_idle_tracker, evaluate, TaskEvent, task_starts, task_ends, observe_all,
}
use media_processor.Idle.Exit.{over, starts, ends, Polls, evaluate_idle}

-- Two tasks that overlap.
abbrev events : List TaskEvent
events = task_starts 10 ∷ task_starts 12 ∷ task_ends 20 ∷ task_ends 31 ∷ []

evaluate_idle_example :
    Polls 5 0 31 40 (evaluate (pos 5) (observe_all (new_idle_tracker 3) events) 40)
evaluate_idle_example =
    evaluate_idle 5 40
      (starts (omega arith) (starts (omega arith) (ends (omega arith) (ends (omega arith) over))))
      (omega arith)
