-- ===== src/LoadProbe.antt =====
-- pkg/loadprobe/sampler.go: the sampler that the limiter reads. Its loop, `Start`, `Close` and the
-- context interleave, as a sequence of events; a call waits where it would block. `float64` is the
-- record `SampleFloats`. The logger is left out.
pub mod Lifecycle
pub mod Fallback
pub mod Cgroup
pub mod Tests
use media_processor.Prelude.{
  ℕ, ◌+◌, Bool, true, false, ◌&&◌, ◌||◌, not, List, [], ◌∷◌, Option, none, some, if◌then◌else◌,
}
use media_processor.Prelude.Int.{ℤ, pos, leb_ℤ}

pub record SampleFloats : Type 1 where
  pub Float : Type 0
  pub is_nan : Float → Bool
  pub lt : Float → Float → Bool
  pub add : Float → Float → Float
  pub sub : Float → Float → Float
  pub mul : Float → Float → Float
  pub div : Float → Float → Float
  pub of_int : ℤ → Float

-- `SamplerConfig`; the interval in nanoseconds.
pub record SamplerConfig : Type 0 where
  pub interval : ℤ
  pub smoothing_window : ℤ

-- 500 ms.
abbrev pub default_sampler_interval : ℤ
default_sampler_interval = pos 500_000_000

abbrev pub default_sampler_smoothing_window : ℤ
default_sampler_smoothing_window = pos 5

unfoldable pub apply_sampler_defaults : SamplerConfig → SamplerConfig
apply_sampler_defaults cfg = record {
  interval = if leb_ℤ cfg.interval (pos 0) then default_sampler_interval else cfg.interval;
  smoothing_window =
      if leb_ℤ cfg.smoothing_window (pos 0)
      then default_sampler_smoothing_window
      else cfg.smoothing_window;
}

-- Where the goroutine is: not launched, in `Sample`, in a `select` on the ticker, or returned.
pub data Phase : Type 0 where
  not_launched sampling sleeping returned : Phase

-- The state of a sampler; `E` are the errors. `first` is a variable of the loop. `waiting` says that
-- a `Close` is past its lock, and `probe_closes` counts the calls of the probe's `Close`.
pub record Sampler (F E : Type 0) : Type 0 where
  pub cfg : SamplerConfig
  pub has_probe : Bool
  pub value : F
  pub first : Bool
  pub reason : Option E
  pub started : Bool
  pub closed : Bool
  pub ctx_ended : Bool
  pub phase : Phase
  pub waiting : Bool
  pub probe_closes : ℕ

-- What `Sample` answers; of an error, whether it is `context.DeadlineExceeded`, and whether the
-- deadline of the round has passed.
pub data Answer (F E : Type 0) : Type 0 where
  reading : F → Answer F E
  failure : E → Bool → Bool → Answer F E

pub data Event (F E : Type 0) : Type 0 where
  start_called close_called close_goes_on context_ends ticks notices_end : Event F E
  answers : Answer F E → Event F E

-- `markFailed`: only the first reason is kept.
unfoldable pub mark_failed : {F E : Type 0} → E → Sampler F E → Sampler F E
mark_failed e s = elim s.reason [ none ↦ record s { reason = some e } | some e' ↦ s ]

-- `Start`; its context and the one that `Close` cancels are one, `ctx_ended`.
unfoldable pub start : {F E : Type 0} → Sampler F E → Sampler F E
start s =
    if s.started || (s.closed || not s.has_probe)
    then s
    else record s { started = true; phase = sampling }

-- `Close`, up to the wait for the goroutine.
unfoldable pub close : {F E : Type 0} → Sampler F E → Sampler F E
close s =
    if s.closed
    then s
    else record s { closed = true; waiting = true; ctx_ended = s.started || s.ctx_ended }

-- The goroutine is in its loop.
unfoldable pub is_looping : Phase → Bool
is_looping not_launched = false
is_looping sampling = true
is_looping sleeping = true
is_looping returned = false

-- The rest of `Close`; it waits for a goroutine in its loop.
unfoldable pub finish_close : {F E : Type 0} → Sampler F E → Sampler F E
unfolding is_looping
finish_close s =
    if s.waiting && not (is_looping s.phase)
    then record s {
      waiting = false;
      probe_closes = if s.has_probe then s.probe_closes + 1 else s.probe_closes;
    }
    else s

-- A tick, and the end of the context, as the `select` of a sleeping goroutine receives them.
unfoldable pub wake : {F E : Type 0} → Sampler F E → Sampler F E
wake s = elim s.phase [
  | not_launched ↦ s
  | sampling ↦ s
  | sleeping ↦ record s { phase = sampling }
  | returned ↦ s
]

unfoldable pub notice_end : {F E : Type 0} → Sampler F E → Sampler F E
notice_end s = elim s.phase [
  | not_launched ↦ s
  | sampling ↦ s
  | sleeping ↦ if s.ctx_ended then record s { phase = returned } else s
  | returned ↦ s
]

module _ (fs : SampleFloats) (E : Type 0) where
  open fs use {Float, is_nan, lt, add, sub, mul, div, of_int}

  unfoldable pub clamp01 : Float → Float
  clamp01 v =
      if is_nan v || lt v (of_int (pos 0))
      then of_int (pos 0)
      else if lt (of_int (pos 1)) v
      then of_int (pos 1)
      else v

  -- `Failed`, for a reason that is not nil; its configuration is not read.
  unfoldable pub failed : E → Sampler Float E
  failed e = record {
    cfg = record { interval = pos 0; smoothing_window = pos 0 };
    has_probe = false;
    value = of_int (pos 0);
    first = true;
    reason = some e;
    started = false;
    closed = false;
    ctx_ended = false;
    phase = not_launched;
    waiting = false;
    probe_closes = 0;
  }

  -- `NewSampler`; a nil probe is failed with `nil_probe`.
  unfoldable pub new_sampler : Bool → SamplerConfig → E → Sampler Float E
  new_sampler false cfg nil_probe = failed nil_probe
  new_sampler true cfg nil_probe = record {
    cfg = apply_sampler_defaults cfg;
    has_probe = true;
    value = of_int (pos 0);
    first = true;
    reason = none;
    started = false;
    closed = false;
    ctx_ended = false;
    phase = not_launched;
    waiting = false;
    probe_closes = 0;
  }

  -- The smoothing factor of `loop`.
  unfoldable pub alpha : SamplerConfig → Float
  alpha cfg = div (of_int (pos 2)) (add (of_int cfg.smoothing_window) (of_int (pos 1)))

  -- The next value after a clamped reading.
  unfoldable pub next_value : Sampler Float E → Float → Float
  unfolding alpha
  next_value s clamped =
      if s.first
      then clamped
      else add (mul (alpha s.cfg) clamped) (mul (sub (of_int (pos 1)) (alpha s.cfg)) s.value)

  -- `loop` after an answer of the probe, up to its `select`.
  unfoldable pub after_sample : Answer Float E → Sampler Float E → Sampler Float E
  unfolding clamp01 next_value
  after_sample (reading raw) s = record s {
    value = next_value s (clamp01 raw);
    first = false;
    phase = sleeping;
  }
  after_sample (failure e is_deadline our_timeout) s =
      if s.ctx_ended
      then record s { phase = returned }
      else if our_timeout && is_deadline
      then record s { phase = sleeping }
      else record (mark_failed e s) { phase = returned }

  unfoldable pub answer : Answer Float E → Sampler Float E → Sampler Float E
  unfolding after_sample
  answer a s = elim s.phase [
    | not_launched ↦ s
    | sampling ↦ after_sample a s
    | sleeping ↦ s
    | returned ↦ s
  ]

  -- One event; an event that cannot happen in the state changes nothing.
  unfoldable pub step : Event Float E → Sampler Float E → Sampler Float E
  step start_called s = start s
  step close_called s = close s
  step close_goes_on s = finish_close s
  step context_ends s = record s { ctx_ended = true }
  step ticks s = wake s
  step notices_end s = notice_end s
  step (answers a) s = answer a s

  unfoldable pub run : List (Event Float E) → Sampler Float E → Sampler Float E
  run [] s = s
  run (e ∷ es) s = run es (step e s)
