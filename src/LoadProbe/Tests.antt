-- ===== src/LoadProbe/Tests.antt =====
-- Instances of the theorems on the sampler and on cpu.max, with floats in thousandths and errors as numbers: a slow
-- round is skipped, a reading comes, and a Close arrives while the probe samples again; or an error.
use media_processor.Prelude.{
  ℕ, ◌+◌, ◌-◌, ◌*◌, ◌/◌, ◌≡◌, ◌↔◌, refl, true, false, List, [], ◌∷◌, some, ltb, arith,
}
use media_processor.Prelude.Int.{pos, pos_part}
use media_processor.LoadProbe.{
  SampleFloats, SamplerConfig, reading, failure, Event, start_called, close_called, close_goes_on,
  ticks, answers, apply_sampler_defaults, start, close, is_looping, finish_close, wake, new_sampler,
  clamp01, next_value, alpha, after_sample, answer, step, run,
}
use media_processor.LoadProbe.Lifecycle.{
  IsSound, reached, until_closed, run-IsSound, run-until_closed,
}
use media_processor.LoadProbe.Cgroup.{constrained, unconstrained, read_cpu_max}
use media_processor.LoadProbe.Cgroup.Kernel.{cpu_max_line, max_line, read_cpu_max-line}
use media_processor.LoadProbe.Fallback.{SomeFails, reason_iff}

abbrev thousandths : SampleFloats
thousandths = record {
  Float = ℕ;
  is_nan = λ x. false;
  lt = ltb;
  add = λ x y. x + y;
  sub = λ x y. x - y;
  mul = λ x y. x * y / 1000;
  div = λ x y. x * 1000 / y;
  of_int = λ z. pos_part z * 1000;
}

abbrev config : SamplerConfig
config = record { interval = pos 0; smoothing_window = pos 3 }

-- The round is slow, the next one reads 1.2, and a third begins.
abbrev readings : List (Event ℕ ℕ)
readings =
    start_called
    ∷ answers (failure 4 true true)
    ∷ ticks
    ∷ answers (reading 1200)
    ∷ ticks
    ∷ answers (reading 400)
    ∷ ticks
    ∷ []

abbrev closing : List (Event ℕ ℕ)
closing = start_called ∷ answers (reading 300) ∷ ticks ∷ close_called ∷ close_goes_on ∷ []

abbrev failing : List (Event ℕ ℕ)
failing = start_called ∷ answers (failure 4 true true) ∷ ticks ∷ answers (failure 5 true false) ∷ []

-- The smoothing factor is a half.
smoothed : (reached thousandths ℕ true config 9 readings).value ≡ 700
unfolding run step start answer after_sample next_value alpha clamp01 wake new_sampler
    apply_sampler_defaults
smoothed = refl

run-IsSound_example : IsSound (reached thousandths ℕ true config 9 closing)
run-IsSound_example = run-IsSound thousandths ℕ true config 9 closing

close_waits : (reached thousandths ℕ true config 9 closing).waiting ≡ true
unfolding run step start close finish_close is_looping answer after_sample wake new_sampler
close_waits = refl

run-until_closed_example :
    ((run thousandths ℕ
        (until_closed thousandths ℕ (failure 6 false false))
        (reached thousandths ℕ true config 9 closing)).waiting
      ≡ false)
    × ((run thousandths ℕ
          (until_closed thousandths ℕ (failure 6 false false))
          (reached thousandths ℕ true config 9 closing)).probe_closes
        ≡ 1)
run-until_closed_example =
    run-until_closed thousandths ℕ config 9 closing (failure 6 false false) close_waits

reason_iff_example :
    ((reached thousandths ℕ true config 9 failing).reason ≡ some 5)
    ↔ SomeFails thousandths ℕ 5 failing (new_sampler thousandths ℕ true config 9)
reason_iff_example = reason_iff thousandths ℕ config 9 5 failing

-- One and a half processors.
read_cpu_max-line_example :
    (read_cpu_max (some (cpu_max_line 150_000 100_000)) ≡ constrained 150_000 100_000)
    × (read_cpu_max (some (max_line 100_000)) ≡ unconstrained)
read_cpu_max-line_example =
    read_cpu_max-line 150_000 100_000 (omega arith) (omega arith) (omega arith)
