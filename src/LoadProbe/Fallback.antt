-- ===== src/LoadProbe/Fallback.antt =====
-- When a sampler fails, and why.
use media_processor.Prelude.{
  ◌≡◌, ◌↔◌, ◌⊎◌, refl, sym, ◌∙◌, inl, inr, true, false, List, [], ◌∷◌, none, some, arith,
}
use media_processor.LoadProbe.{
  SampleFloats, SamplerConfig, sampling, Sampler, reading, failure, Event, start_called,
  close_called, close_goes_on, context_ends, ticks, notices_end, answers, mark_failed, start, close,
  is_looping, finish_close, wake, notice_end, new_sampler, after_sample, answer, step, run,
}
use media_processor.LoadProbe.Lifecycle.{IsSound, reached, step-IsSound, new_sampler-IsSound}

-- The probe answers the loop with this error while the context is live, and the error is not that
-- the round took longer than its deadline.
abbrev pub FailsWith : {F E : Type 0} → E → Event F E → Sampler F E → Type 0
FailsWith e start_called s = ⊥
FailsWith e close_called s = ⊥
FailsWith e close_goes_on s = ⊥
FailsWith e context_ends s = ⊥
FailsWith e ticks s = ⊥
FailsWith e notices_end s = ⊥
FailsWith e (answers (reading raw)) s = ⊥
FailsWith e (answers (failure e' is_deadline our_timeout)) s =
    (e' ≡ e)
    × (s.phase ≡ sampling)
    × (s.ctx_ended ≡ false)
    × ((is_deadline ≡ false) ⊎ (our_timeout ≡ false))

module _ (fs : SampleFloats) (E : Type 0) where
  open fs use {Float}

  step_reason_iff :
      (e : E) (ev : Event Float E) (s : Sampler Float E)
      → IsSound s
      → ((step fs E ev s).reason ≡ some e) ↔ ((s.reason ≡ some e) ⊎ FailsWith e ev s)
  unfolding step start close finish_close wake notice_end answer after_sample mark_failed is_looping
  step_reason_iff e start_called s h = (λ k. ground arith, λ k. ground arith)
  step_reason_iff e close_called s h = (λ k. ground arith, λ k. ground arith)
  step_reason_iff e close_goes_on s h = (λ k. ground arith, λ k. ground arith)
  step_reason_iff e context_ends s h = (λ k. ground arith, λ k. ground arith)
  step_reason_iff e ticks s h = (λ k. ground arith, λ k. ground arith)
  step_reason_iff e notices_end s h = (λ k. ground arith, λ k. ground arith)
  step_reason_iff e (answers (reading raw)) s h = (λ k. ground arith, λ k. ground arith)
  step_reason_iff e (answers (failure e' d t)) s h = (λ k. ground arith, λ k. ground arith)

  -- Some event of a sequence from `s` is such a failure.
  abbrev pub SomeFails : E → List (Event Float E) → Sampler Float E → Type 0
  SomeFails e [] s = ⊥
  SomeFails e (ev ∷ es) s = FailsWith e ev s ⊎ SomeFails e es (step fs E ev s)

  run_reason_iff :
      (e : E) (es : List (Event Float E)) (s : Sampler Float E)
      → IsSound s
      → ((run fs E es s).reason ≡ some e) ↔ ((s.reason ≡ some e) ⊎ SomeFails e es s)
  unfolding run
  run_reason_iff e [] s h = (λ k. inl k, λ k. elim k [ inl r ↦ r | inr o ↦ absurd o ])
  run_reason_iff e (ev ∷ es) s h =
      let now = step_reason_iff e ev s h in
      let later = run_reason_iff e es (step fs E ev s) (step-IsSound fs E ev s h) in
      (
        λ k. elim (later.0 k) [
          | inl r ↦ elim (now.0 r) [ inl q ↦ inl q | inr q ↦ inr (inl q) ]
          | inr q ↦ inr (inr q)
        ],
        λ k. elim k [
          | inl r ↦ later.1 (inl (now.1 (inl r)))
          | inr (inl q) ↦ later.1 (inl (now.1 (inr q)))
          | inr (inr q) ↦ later.1 (inr q)
        ],
      )

  new_reason :
      (cfg : SamplerConfig) (nil_probe : E) → (new_sampler fs E true cfg nil_probe).reason ≡ none
  unfolding new_sampler
  new_reason cfg nil_probe = refl

  -- A sampler with a probe, whatever happens to it and in any order, reports an error as the reason of
  -- its failure exactly if the probe has once answered the loop with that error while the context was
  -- live, other than by running into the deadline of the round.
  pub reason_iff :
      (cfg : SamplerConfig) (nil_probe e : E) (es : List (Event Float E))
      → ((reached fs E true cfg nil_probe es).reason ≡ some e)
        ↔ SomeFails e es (new_sampler fs E true cfg nil_probe)
  reason_iff cfg nil_probe e es =
      let fresh = new_reason cfg nil_probe in
      let whole = run_reason_iff e es _ (new_sampler-IsSound fs E true cfg nil_probe) in
      (
        λ k. elim (whole.0 k) [ inl r ↦ absurd (cc (sym fresh ∙ r)) | inr q ↦ q ],
        λ k. whole.1 (inr k),
      )
