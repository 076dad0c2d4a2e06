-- ===== src/Arr/Command.antt =====
-- pkg/medialib/internal/arrcommand/arrcommand.go. What the service answers to each poll, and what
-- wakes the loop between two polls, are parameters; the texts of errors are left out.
pub mod Polls
use media_processor.Prelude.{
  ℕ, Bool, true, false, ◌||◌, List, [], ◌∷◌, Option, none, some, String, ◌==◌, if◌then◌else◌,
}
use media_processor.Prelude.Int.{ℤ, pos, leb_ℤ}
use media_processor.Text.{lower_is, lower_contains, equal_fold}

-- `Status`.
pub record Status : Type 0 where
  pub status : String
  pub message : String
  pub result : String

pub data Wake : Type 0 where
  ticked cancelled : Wake

-- One round: what `fetch` answers, `none` for an error, and what ends the wait after it.
pub record Poll : Type 0 where
  pub answer : Option Status
  pub wake : Wake

-- nil, `ErrNoSuccessfulImports`, a terminal status, an error of `fetch`, and the context's error.
pub data WaitResult : Type 0 where
  finished no_imports ended fetch_failed wait_cancelled : WaitResult

-- `notUpgradeMarker`.
abbrev pub not_upgrade_marker : String
not_upgrade_marker = "upgrade for existing"

-- `IsNotUpgradeRejection`.
unfoldable pub is_not_upgrade_rejection : List String → Bool
is_not_upgrade_rejection [] = false
is_not_upgrade_rejection (m ∷ ms) =
    lower_contains m not_upgrade_marker || is_not_upgrade_rejection ms

-- `DefaultPollInterval`, in nanoseconds, and the interval of the ticker.
abbrev pub default_poll_interval : ℤ
default_poll_interval = pos 2000000000

unfoldable pub ticker_interval : ℤ → ℤ
ticker_interval d = if leb_ℤ d (pos 0) then default_poll_interval else d

-- The four terminal failures.
unfoldable pub is_failure : String → Bool
is_failure s =
    lower_is s "failed"
    || (lower_is s "aborted" || (lower_is s "cancelled" || lower_is s "orphaned"))

-- The switch on a status: `none` leaves the command running.
unfoldable pub classify : Status → Option WaitResult
classify s =
    if lower_is s.status "completed"
    then some (if equal_fold s.result "unsuccessful" then no_imports else finished)
    else if is_failure s.status
    then some ended
    else none

unfoldable pub after_answer : Option Status → Option WaitResult
unfolding classify
after_answer none = some fetch_failed
after_answer (some s) = classify s

-- The loop; `none` waits still, once the rounds given are over.
unfoldable pub wait_loop : List Poll → Option WaitResult
wait_loop [] = none
wait_loop (p ∷ ps) =
    let rest = wait_loop ps in
    elim (after_answer p.answer) [
      | some r ↦ some r
      | none ↦ elim p.wake [ ticked ↦ rest | cancelled ↦ some wait_cancelled ]
    ]

-- `Wait`.
unfoldable pub wait : ℕ → List Poll → Option WaitResult
unfolding wait_loop
wait id polls = if id == 0 then some finished else wait_loop polls
