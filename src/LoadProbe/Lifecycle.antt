-- ===== src/LoadProbe/Lifecycle.antt =====
-- How sampling, `Start` and `Close` fit together.
use media_processor.Prelude.{
  ◌≤◌, ◌≡◌, ◌∙◌, ◌⊎◌, refl, Bool, true, false, List, [], ◌∷◌, none, arith,
}
use media_processor.LoadProbe.{
  SampleFloats, SamplerConfig, Sampler, Answer, reading, failure, Event, start_called, close_called,
  close_goes_on, context_ends, ticks, notices_end, answers, mark_failed, start, close, is_looping,
  finish_close, wake, notice_end, failed, new_sampler, after_sample, answer, step, run,
}

-- The probe is closed at most once, and the loop is over then; a `Close` that waits for the loop has
-- ended its context; a sampler that failed has left its loop.
abbrev pub IsSound : {F E : Type 0} → Sampler F E → Type 0
IsSound s =
    (s.probe_closes ≤ 1)
    × ((s.closed ≡ true) ⊎ ((s.waiting ≡ false) × (s.probe_closes ≡ 0)))
    × ((s.waiting ≡ false) ⊎ (s.probe_closes ≡ 0))
    × ((s.probe_closes ≡ 0) ⊎ (is_looping s.phase ≡ false))
    × ((s.waiting ≡ false) ⊎ ((is_looping s.phase ≡ false) ⊎ (s.ctx_ended ≡ true)))
    × ((s.started ≡ true) ⊎ (is_looping s.phase ≡ false))
    × ((s.has_probe ≡ true) ⊎ (is_looping s.phase ≡ false))
    × ((s.reason ≡ none)
        ⊎ ((is_looping s.phase ≡ false) × ((s.has_probe ≡ false) ⊎ (s.started ≡ true))))

start-IsSound : {F E : Type 0} (s : Sampler F E) → IsSound s → IsSound (start s)
unfolding start is_looping
start-IsSound s h = ground arith

close-IsSound : {F E : Type 0} (s : Sampler F E) → IsSound s → IsSound (close s)
unfolding close is_looping
close-IsSound s h = ground arith

finish_close-IsSound : {F E : Type 0} (s : Sampler F E) → IsSound s → IsSound (finish_close s)
unfolding finish_close is_looping
finish_close-IsSound s h = ground arith

wake-IsSound : {F E : Type 0} (s : Sampler F E) → IsSound s → IsSound (wake s)
unfolding wake is_looping
wake-IsSound s h = ground arith

notice_end-IsSound : {F E : Type 0} (s : Sampler F E) → IsSound s → IsSound (notice_end s)
unfolding notice_end is_looping
notice_end-IsSound s h = ground arith

module _ (fs : SampleFloats) (E : Type 0) where
  open fs use {Float}

  answer-IsSound :
      (a : Answer Float E) (s : Sampler Float E) → IsSound s → IsSound (answer fs E a s)
  unfolding answer after_sample mark_failed is_looping
  answer-IsSound (reading raw) s h = ground arith
  answer-IsSound (failure e d t) s h = ground arith

  pub step-IsSound : (e : Event Float E) (s : Sampler Float E) → IsSound s → IsSound (step fs E e s)
  unfolding step is_looping
  step-IsSound start_called s h = start-IsSound s h
  step-IsSound close_called s h = close-IsSound s h
  step-IsSound close_goes_on s h = finish_close-IsSound s h
  step-IsSound context_ends s h = ground arith
  step-IsSound ticks s h = wake-IsSound s h
  step-IsSound notices_end s h = notice_end-IsSound s h
  step-IsSound (answers a) s h = answer-IsSound a s h

  pub new_sampler-IsSound :
      (has_probe : Bool) (cfg : SamplerConfig) (nil_probe : E)
      → IsSound (new_sampler fs E has_probe cfg nil_probe)
  unfolding new_sampler failed is_looping
  new_sampler-IsSound true cfg nil_probe = ground arith
  new_sampler-IsSound false cfg nil_probe = ground arith

  run_from : (es : List (Event Float E)) (s : Sampler Float E) → IsSound s → IsSound (run fs E es s)
  unfolding run
  run_from [] s h = h
  run_from (e ∷ es) s h = run_from es (step fs E e s) (step-IsSound e s h)

  -- A sampler after events.
  abbrev pub reached : Bool → SamplerConfig → E → List (Event Float E) → Sampler Float E
  reached has_probe cfg nil_probe es = run fs E es (new_sampler fs E has_probe cfg nil_probe)

  -- Whatever happens to a new sampler, and in any order: its probe is closed at most once, and once it
  -- is closed the loop that samples is over and does not begin again; a Close that waits for the loop
  -- has ended its context; and where there is a failure, the loop is over.
  pub run-IsSound :
      (has_probe : Bool) (cfg : SamplerConfig) (nil_probe : E) (es : List (Event Float E))
      → IsSound (reached has_probe cfg nil_probe es)
  run-IsSound has_probe cfg nil_probe es =
      run_from es _ (new_sampler-IsSound has_probe cfg nil_probe)

  -- The events that let a Close go on.
  abbrev pub until_closed : Answer Float E → List (Event Float E)
  until_closed a = answers a ∷ notices_end ∷ close_goes_on ∷ []

  goes_on :
      (a : Answer Float E) (s : Sampler Float E)
      → IsSound s
      → s.waiting ≡ true
      → s.has_probe ≡ true
      → ((run fs E (until_closed a) s).waiting ≡ false)
        × ((run fs E (until_closed a) s).probe_closes ≡ 1)
  unfolding run step answer after_sample mark_failed notice_end finish_close is_looping
  goes_on (reading raw) s h w p = ground arith
  goes_on (failure e d t) s h w p = ground arith

  step-has_probe :
      (e : Event Float E) (s : Sampler Float E) → (step fs E e s).has_probe ≡ s.has_probe
  unfolding step start close finish_close wake notice_end answer after_sample mark_failed
  step-has_probe start_called s = ground arith
  step-has_probe close_called s = ground arith
  step-has_probe close_goes_on s = ground arith
  step-has_probe context_ends s = refl
  step-has_probe ticks s = ground arith
  step-has_probe notices_end s = ground arith
  step-has_probe (answers (reading raw)) s = ground arith
  step-has_probe (answers (failure e d t)) s = ground arith

  run-has_probe :
      (es : List (Event Float E)) (s : Sampler Float E) → (run fs E es s).has_probe ≡ s.has_probe
  unfolding run
  run-has_probe [] s = refl
  run-has_probe (e ∷ es) s = run-has_probe es (step fs E e s) ∙ step-has_probe e s

  new_has_probe :
      (cfg : SamplerConfig) (nil_probe : E) → (new_sampler fs E true cfg nil_probe).has_probe ≡ true
  unfolding new_sampler
  new_has_probe cfg nil_probe = refl

  -- Whatever happened to a sampler with a probe before: if a Close waits, then one more answer of the
  -- probe, a value or an error of any kind, and the loop's look at its context are enough for the
  -- Close to go on, and the probe is closed then, once.
  pub run-until_closed :
      (cfg : SamplerConfig) (nil_probe : E) (es : List (Event Float E)) (a : Answer Float E)
      → (reached true cfg nil_probe es).waiting ≡ true
      → ((run fs E (until_closed a) (reached true cfg nil_probe es)).waiting ≡ false)
        × ((run fs E (until_closed a) (reached true cfg nil_probe es)).probe_closes ≡ 1)
  run-until_closed cfg nil_probe es a w =
      goes_on a _ (run-IsSound true cfg nil_probe es) w
        (run-has_probe es _ ∙ new_has_probe cfg nil_probe)
