-- ===== src/Arr/Command/Polls.antt =====
-- When the wait for a command ends, and how.
use media_processor.Prelude.{
  ℕ, ◌≡◌, ◌≢◌, refl, sym, ap, ◌∙◌, ◌↔◌, ◌⊎◌, inl, inr, true, false, List, [], ◌∷◌, ◌++◌, Option,
  none, some, ◌==◌, arith, Bool-cases, Option-cases,
}
use media_processor.Text.{lower_is, equal_fold}
use media_processor.Arr.Command.{
  Status, Wake, ticked, cancelled, Poll, WaitResult, finished, no_imports, ended, fetch_failed,
  wait_cancelled, is_failure, classify, after_answer, wait_loop, wait,
}

-- The command is seen to run on, and the ticker wakes the loop.
abbrev pub IsRunning : Status → Type 0
IsRunning s =
    (lower_is s.status "completed" ≡ false)
    × (lower_is s.status "failed" ≡ false)
    × (lower_is s.status "aborted" ≡ false)
    × (lower_is s.status "cancelled" ≡ false)
    × (lower_is s.status "orphaned" ≡ false)

abbrev pub IsPending : Poll → Type 0
IsPending p = (s : Status) × (p.answer ≡ some s) × IsRunning s × (p.wake ≡ ticked)

abbrev pub AllPending : List Poll → Type 0
AllPending [] = Unit {0}
AllPending (p ∷ ps) = IsPending p × AllPending ps

-- A round after which the wait ends with a result.
abbrev pub Ends : Poll → WaitResult → Type 0
Ends p finished =
    (s : Status) × (p.answer ≡ some s)
    × (lower_is s.status "completed" ≡ true)
    × (equal_fold s.result "unsuccessful" ≡ false)
Ends p no_imports =
    (s : Status) × (p.answer ≡ some s)
    × (lower_is s.status "completed" ≡ true)
    × (equal_fold s.result "unsuccessful" ≡ true)
Ends p ended =
    (s : Status) × (p.answer ≡ some s)
    × (lower_is s.status "completed" ≡ false)
    × ((lower_is s.status "failed" ≡ true)
        ⊎ ((lower_is s.status "aborted" ≡ true)
            ⊎ ((lower_is s.status "cancelled" ≡ true) ⊎ (lower_is s.status "orphaned" ≡ true))))
Ends p fetch_failed = p.answer ≡ none
Ends p wait_cancelled = (s : Status) × (p.answer ≡ some s) × IsRunning s × (p.wake ≡ cancelled)

-- The rounds begin with some that leave the command running, and then one ends the wait.
abbrev pub Settles : List Poll → WaitResult → Type 0
Settles ps r =
    (before : List Poll) × (p : Poll) × (after : List Poll) × (ps ≡ before ++ p ∷ after)
    × AllPending before
    × Ends p r

-- What one round leads to: a result, or more rounds.
round : Option Status → Wake → Option WaitResult
round a w = elim (after_answer a) [
  | some r ↦ some r
  | none ↦ elim w [ ticked ↦ none | cancelled ↦ some wait_cancelled ]
]

abbrev Rounded : Poll → Option WaitResult → Type 0
Rounded p (some r) = Ends p r
Rounded p none = IsPending p

abbrev poll : Option Status → Wake → Poll
poll a w = record { answer = a; wake = w }

running : (s : Status) → classify s ≡ none → IsRunning s
unfolding classify is_failure
running s h = (ground arith, ground arith, ground arith, ground arith, ground arith)

classified :
    (s : Status) (w : Wake) (r : WaitResult) → classify s ≡ some r → Ends (poll (some s) w) r
unfolding classify is_failure
classified s w finished h = (s, refl, ground arith, ground arith)
classified s w no_imports h = (s, refl, ground arith, ground arith)
classified s w ended h = (s, refl, ground arith, ground arith)
classified s w fetch_failed h = ground arith
classified s w wait_cancelled h = ground arith

round-Rounded : (a : Option Status) (w : Wake) → Rounded (poll a w) (round a w)
unfolding round after_answer
round-Rounded none w = refl
round-Rounded (some s) ticked = elim (Option-cases (classify s)) [
  | inl e ↦ rw (e, round) (s, refl, running s e, refl)
  | inr (r, e) ↦ rw (e, round) (classified s ticked r e)
]
round-Rounded (some s) cancelled = elim (Option-cases (classify s)) [
  | inl e ↦ rw (e, round) (s, refl, running s e, refl)
  | inr (r, e) ↦ rw (e, round) (classified s cancelled r e)
]

loop_round :
    (p : Poll) (ps : List Poll)
    → wait_loop (p ∷ ps) ≡ elim (round p.answer p.wake) [ some r ↦ some r | none ↦ wait_loop ps ]
unfolding wait_loop round
loop_round p ps = ground arith

classify_running : (s : Status) → IsRunning s → classify s ≡ none
unfolding classify is_failure
classify_running s h = ground arith

classify_ended :
    (s : Status)
    → lower_is s.status "completed" ≡ false
    → is_failure s.status ≡ true
    → classify s ≡ some ended
unfolding classify
classify_ended s h k = rw (h, k) refl

pending_round : (p : Poll) → IsPending p → round p.answer p.wake ≡ none
unfolding round after_answer
pending_round p (s, e, run, k) = rw (e, k) (rw (classify_running s run, round) refl)

round_ended : (p : Poll) (r : WaitResult) → Ends p r → round p.answer p.wake ≡ some r
unfolding round after_answer classify is_failure
round_ended p finished (s, e, h, k) = ground arith
round_ended p no_imports (s, e, h, k) = ground arith
round_ended p ended (s, e, h, k) = ground arith
round_ended p fetch_failed e = ground arith
round_ended p wait_cancelled (s, e, run, k) = ground arith

loop_pending :
    (p : Poll) (ps : List Poll) → round p.answer p.wake ≡ none → wait_loop (p ∷ ps) ≡ wait_loop ps
unfolding wait_loop round
loop_pending p ps h = ground arith

loop_ends :
    (p : Poll) (ps : List Poll) (r : WaitResult)
    → round p.answer p.wake ≡ some r
    → wait_loop (p ∷ ps) ≡ some r
unfolding wait_loop round
loop_ends p ps r h = ground arith

round_at : (p : Poll) (o : Option WaitResult) → round p.answer p.wake ≡ o → Rounded p o
round_at p o e = rw (← e) (round-Rounded p.answer p.wake)

Settles-wait_loop : (ps : List Poll) (r : WaitResult) → wait_loop ps ≡ some r → Settles ps r
unfolding wait_loop
Settles-wait_loop [] r h = cc
Settles-wait_loop (p ∷ ps) r h = elim (Option-cases (round p.answer p.wake)) [
  | inl e ↦
      let (before, q, after, f, pend, ends) =
        Settles-wait_loop ps r (sym (loop_pending p ps e) ∙ h) in
      (p ∷ before, q, after, ap (λ xs. p ∷ xs) f, (round_at p none e, pend), ends)
  | inr (r', e) ↦ ([], p, ps, refl, tt, round_at p (some r) (cc (loop_ends p ps r' e)))
]

wait_loop-settled :
    (before : List Poll) (p : Poll) (after : List Poll) (r : WaitResult)
    → AllPending before
    → Ends p r
    → wait_loop (before ++ p ∷ after) ≡ some r
wait_loop-settled [] p after r pend ends = loop_ends p after r (round_ended p r ends)
wait_loop-settled (q ∷ qs) p after r pend ends =
    loop_pending q (qs ++ p ∷ after) (pending_round q pend.0)
    ∙ wait_loop-settled qs p after r pend.1 ends

-- Wait returns at once with no error if no command was issued. Otherwise it returns with a result
-- exactly if, after some rounds that leave the command running, there is a round that ends the wait
-- with that result: a completed command whose result does not say unsuccessful, or does; a terminal
-- failure; an answer that cannot be fetched; or the end of the context while the command runs on.
wait_iff :
    (id : ℕ) (polls : List Poll) (r : WaitResult)
    → (wait id polls ≡ some r) ↔ (((id ≡ 0) × (r ≡ finished)) ⊎ ((id ≢ 0) × Settles polls r))
unfolding wait
wait_iff id polls r = (
  λ h. elim (Bool-cases (id == 0)) [
    | inl e ↦ inl (ground arith, ground arith)
    | inr e ↦ inr (λ k. ground arith, Settles-wait_loop polls r (ground arith))
  ],
  λ s. elim s [
    | inl (e, k) ↦ ground arith
    | inr (e, (before, p, after, f, pend, ends)) ↦
        ground (arith, wait_loop-settled before p after r pend ends)
  ],
)
