-- ===== src/Worker/Config/Threshold.antt =====
-- What becomes of a load threshold that is not a number.
use media_processor.Prelude.{
  ℕ, ◌≡◌, ◌≢◌, refl, ap, ◌∙◌, inr, true, false, some, String, str_eq, eq_iff, arith,
}
use media_processor.Limiter.Defs.{Limiter, normalize, admission_state}
use media_processor.Worker.Settings.{Numbers, checked, is_unit, setting, parse_unit_float}
use media_processor.Worker.Config.{LimiterConfig, load_transcode_limiter_config}
use media_processor.Worker.Settings.Ranges.{Yields, bind-Yields, any-Yields, inr-Yields}

module _ (nums : Numbers) (env : String → String) where
  open nums use {floats, parse_float, is_nan, nan_le, nan_lt}
  open floats use {Float, le, lt, four_fifths}

  parse_unit_float-value :
      (name : String) (x : Float)
      → env name ≢ ""
      → parse_float (env name) ≡ some x
      → Yields (λ v. v ≡ x) (parse_unit_float nums env name four_fifths)
  unfolding parse_unit_float setting checked
  parse_unit_float-value name x full parsed a e =
      let nonblank : str_eq (env name) "" ≡ false = ground (arith, full, eq_iff (env name) "") in
      ground (arith, parsed, nonblank)

  parse_unit_float-nan :
      (name : String) (x : Float)
      → env name ≢ ""
      → parse_float (env name) ≡ some x
      → is_nan x ≡ true
      → parse_unit_float nums env name four_fifths ≡ inr x
  unfolding parse_unit_float setting checked is_unit
  parse_unit_float-nan name x full parsed nan =
      let nonblank : str_eq (env name) "" ≡ false = ground (arith, full, eq_iff (env name) "") in
      rw (nonblank, parsed, nan_le x floats.float_zero nan, nan_lt x floats.float_one nan) refl

  load-threshold :
      (x : Float)
      → env "MEDIA_TRANSCODE_LIMITER_GPU_THRESHOLD" ≢ ""
      → parse_float (env "MEDIA_TRANSCODE_LIMITER_GPU_THRESHOLD") ≡ some x
      → Yields (λ c. c.limiter.gpu_threshold ≡ x) (load_transcode_limiter_config nums env)
  unfolding load_transcode_limiter_config
  load-threshold x full parsed =
      let P : LimiterConfig Float → Type 0 = λ c. c.limiter.gpu_threshold ≡ x in
      any-Yields P _ _ λ cap.
        bind-Yields (λ v. v ≡ x) P _ _ (parse_unit_float-value _ x full parsed)
          λ t t_ok.
            any-Yields P _ _ λ cooldown.
              any-Yields P _ _ λ interval. any-Yields P _ _ λ window. inr-Yields P _ t_ok

  normalize-nan :
      (c : LimiterConfig Float)
      → is_nan c.limiter.gpu_threshold ≡ true
      → (normalize floats c.limiter).gpu_threshold ≡ c.limiter.gpu_threshold
  unfolding normalize
  normalize-nan c h =
      rw
        (
          nan_le c.limiter.gpu_threshold floats.float_zero h,
          nan_lt c.limiter.gpu_threshold floats.float_one h,
        )
        refl

  admission_state-nan :
      (l : Limiter Float) (load load' : Float) (now : ℕ)
      → is_nan l.cfg.gpu_threshold ≡ true
      → admission_state floats l load now ≡ admission_state floats l load' now
  unfolding admission_state
  admission_state-nan l load load' now h =
      rw (nan_le l.cfg.gpu_threshold load h, nan_le l.cfg.gpu_threshold load' h) refl

  -- A GPU threshold that is read as NaN is accepted. If the configuration of the limiter is loaded, a
  -- limiter with what `New` makes of it has that threshold, and answers the same at any two loads.
  pub load_transcode_limiter_config-nan :
      (x : Float) (c : LimiterConfig Float) (l : Limiter Float) (load load' : Float) (now : ℕ)
      → env "MEDIA_TRANSCODE_LIMITER_GPU_THRESHOLD" ≢ ""
      → parse_float (env "MEDIA_TRANSCODE_LIMITER_GPU_THRESHOLD") ≡ some x
      → is_nan x ≡ true
      → load_transcode_limiter_config nums env ≡ inr c
      → l.cfg ≡ normalize floats c.limiter
      → (parse_unit_float nums env "MEDIA_TRANSCODE_LIMITER_GPU_THRESHOLD" four_fifths ≡ inr x)
        × (l.cfg.gpu_threshold ≡ x)
        × (admission_state floats l load now ≡ admission_state floats l load' now)
  load_transcode_limiter_config-nan x c l load load' now full parsed nan e cfg =
      let read = load-threshold x full parsed c e in
      let kept = ap (λ k. k.gpu_threshold) cfg ∙ normalize-nan c (ap is_nan read ∙ nan) ∙ read in
      (
        parse_unit_float-nan _ x full parsed nan,
        kept,
        admission_state-nan l load load' now (ap is_nan kept ∙ nan),
      )
