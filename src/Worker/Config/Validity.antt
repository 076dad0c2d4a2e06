-- ===== src/Worker/Config/Validity.antt =====
-- The values of a configuration that `load_config` accepts.
use media_processor.Prelude.{
  ◌≤◌, ◌≡◌, refl, ◌≢◌, ◌⊎◌, inl, inr, true, List, some, String, str_eq, eq_iff, arith, Bool-cases,
  Option-cases,
}
use media_processor.Prelude.Int.{pos, ◌≤ℤ◌}
use media_processor.Media.Activities.{default_task_queue_prefix}
use media_processor.Worker.Activities.{contains}
use media_processor.Worker.Settings.{Numbers, require_env, or_text}
use media_processor.Worker.Config.{
  LimiterConfig, MediaConfig, ServiceConfig, WorkerConfig, validate_hardware_device_path,
  check_hardware, load_transcode_limiter_config, load_workflow_config, load_service, load_idle_exit,
  load_config,
}
use media_processor.Worker.Settings.Ranges.{
  Yields, bind-Yields, inr-Yields, any-Yields, InUnit, unit-InUnit, IsCoefficient,
  parse_positive_int-pos, parse_unit_float-InUnit, parse_backoff_coefficient-IsCoefficient,
  parse_h265_crf-range, parse_positive_timeout-pos, parse_positive_int32-range,
}

module _ (nums : Numbers) (env : String → String) where
  open nums use {
    floats, parse_float, is_nan, is_inf, is_char_device, three_halves, three_halves_finite,
    three_halves_bounded,
  }
  open floats use {
    Float, le, lt, float_zero, float_one, four_fifths, four_fifths_positive, four_fifths_bounded,
  }

  -- The limiter's part of a configuration.
  abbrev pub IsValidLimiter : LimiterConfig Float → Type 0
  IsValidLimiter c =
      (pos 1 ≤ℤ c.limiter.static_cap)
      × InUnit nums env c.limiter.gpu_threshold
      × (pos 1 ≤ℤ c.smoothing_window)

  load_transcode_limiter_config-IsValid :
      (c : LimiterConfig Float) → load_transcode_limiter_config nums env ≡ inr c → IsValidLimiter c
  unfolding load_transcode_limiter_config
  load_transcode_limiter_config-IsValid =
      bind-Yields (λ n. pos 1 ≤ℤ n) IsValidLimiter _ _
        (λ a. parse_positive_int-pos nums env _ (pos 5) a (omega arith))
        λ cap cap_ok.
          bind-Yields (InUnit nums env) IsValidLimiter _ _
            (λ a.
              parse_unit_float-InUnit nums env _ four_fifths a
                (unit-InUnit nums env four_fifths four_fifths_positive four_fifths_bounded))
            λ t t_ok. any-Yields IsValidLimiter _ _ λ cooldown.
              any-Yields IsValidLimiter _ _ λ interval.
                bind-Yields (λ n. pos 1 ≤ℤ n) IsValidLimiter _ _
                  (λ a. parse_positive_int-pos nums env _ (pos 5) a (omega arith))
                  λ window window_ok. inr-Yields IsValidLimiter _ (cap_ok, t_ok, window_ok)

  -- The workflow's part, for a prefix of the task queues.
  abbrev pub IsValidMedia : String → MediaConfig Float → Type 0
  IsValidMedia prefix c =
      (c.workflow.task_queue_prefix ≡ prefix)
      × ((c.h265_crf ≡ pos 0) ⊎ ((pos 1 ≤ℤ c.h265_crf) × (c.h265_crf ≤ℤ pos 51)))
      × (pos 1 ≤ℤ c.workflow.notify_initial_interval)
      × IsCoefficient nums env c.notify_backoff_coefficient
      × (pos 1 ≤ℤ c.workflow.notify_maximum_interval)
      × (1 ≤ c.workflow.notify_maximum_attempts)
      × (c.workflow.notify_maximum_attempts ≤ 2_147_483_647)

  load_workflow_config-IsValid :
      (prefix : String) (c : MediaConfig Float)
      → load_workflow_config nums env prefix ≡ inr c
      → IsValidMedia prefix c
  unfolding load_workflow_config
  load_workflow_config-IsValid prefix = any-Yields (IsValidMedia prefix) _ _ λ x.
      any-Yields (IsValidMedia prefix) _ _ λ y. any-Yields (IsValidMedia prefix) _ _ λ detect.
        any-Yields (IsValidMedia prefix) _ _ λ transcode.
          bind-Yields _ (IsValidMedia prefix) _ _ (λ a. parse_h265_crf-range nums env _ a)
            λ crf crf_ok. any-Yields (IsValidMedia prefix) _ _ λ progress.
              any-Yields (IsValidMedia prefix) _ _ λ labels.
                bind-Yields (λ n. pos 1 ≤ℤ n) (IsValidMedia prefix) _ _
                  (λ a. parse_positive_timeout-pos nums env _ _ a)
                  λ initial initial_ok.
                    bind-Yields (IsCoefficient nums env) (IsValidMedia prefix) _ _
                      (λ a. parse_backoff_coefficient-IsCoefficient nums env _ a)
                      λ coefficient coefficient_ok.
                        bind-Yields (λ n. pos 1 ≤ℤ n) (IsValidMedia prefix) _ _
                          (λ a. parse_positive_timeout-pos nums env _ _ a)
                          λ maximum maximum_ok.
                            bind-Yields (λ n. (1 ≤ n) × (n ≤ 2_147_483_647)) (IsValidMedia prefix) _
                              _
                              (λ a.
                                parse_positive_int32-range nums env _ 15 a (omega arith)
                                  (omega arith))
                              λ attempts attempts_ok. inr-Yields (IsValidMedia prefix) _ (
                                refl, crf_ok, initial_ok, coefficient_ok, maximum_ok, attempts_ok.0,
                                attempts_ok.1,
                              )

  -- The variables of a service.
  abbrev pub IsValidService : ServiceConfig → Type 0
  IsValidService c = (c.url ≢ "") × (c.api_key ≢ "")

  require_env-ne : (name : String) → Yields (λ v. v ≢ "") (require_env nums env name)
  unfolding require_env
  require_env-ne name a e = ground (arith, eq_iff (env name) "")

  load_service-IsValid :
      (url_name key_name : String) → Yields IsValidService (load_service nums env url_name key_name)
  unfolding load_service
  load_service-IsValid url_name key_name =
      bind-Yields (λ v. v ≢ "") IsValidService _ _ (require_env-ne url_name)
        λ url url_ok.
          bind-Yields (λ v. v ≢ "") IsValidService _ _ (require_env-ne key_name)
            λ key key_ok. inr-Yields IsValidService _ (url_ok, key_ok)

  load_idle_exit-IsValid : Yields (λ d. pos 0 ≤ℤ d) (load_idle_exit nums env)
  unfolding load_idle_exit
  load_idle_exit-IsValid = any-Yields (λ d. pos 0 ≤ℤ d) _ _ λ d a e. ground arith

  -- Of a worker that transcodes, the hardware device is none or a character device.
  abbrev pub IsValidDevice : List String → String → Type 0
  IsValidDevice tokens path =
      contains tokens "transcode" ≡ true → (path ≡ "") ⊎ (is_char_device path ≡ some true)

  check_hardware-IsValid :
      (tokens : List String) (path : String)
      → Yields (IsValidDevice tokens) (check_hardware nums env tokens path)
  unfolding check_hardware validate_hardware_device_path
  check_hardware-IsValid tokens path a e h = elim (Bool-cases (str_eq path "")) [
    | inl blank ↦ inl (ground (arith, eq_iff path ""))
    | inr full ↦ elim (Option-cases (is_char_device path)) [
      | inl n ↦ absurd (ground arith)
      | inr (device, d) ↦ elim (Bool-cases device) [
        | inl y ↦ inr (ground arith)
        | inr y ↦ absurd (ground arith)
      ]
    ]
  ]

  or_text-ne : (raw default : String) → default ≢ "" → or_text raw default ≢ ""
  unfolding or_text
  or_text-ne raw default n = ground (arith, eq_iff raw "")

  -- A whole configuration.
  abbrev pub IsValid : WorkerConfig Float → Type 0
  IsValid c =
      IsValidDevice c.enabled_tokens c.hardware_device_path_override
      × IsValidService c.radarr
      × IsValidService c.sonarr
      × IsValidMedia c.task_queue_prefix c.workflow
      × IsValidLimiter c.transcode_limiter
      × (pos 0 ≤ℤ c.idle_exit_after)
      × (c.task_queue_prefix ≢ "")
      × (c.health_addr ≢ "")

  -- A configuration that the worker accepts has URLs and keys of both services, a health address and
  -- a prefix of the task queues, the same for the workflow; if the worker transcodes, no hardware
  -- device or one that is a character device; an H.265 quality of 0, for the default, or from 1 to 51;
  -- for the retries of the import, positive intervals, a finite coefficient of at least 1, and at
  -- least one attempt in an int32; for the limiter, a positive cap and smoothing window, and a
  -- threshold that is in (0, 1] or not a number; and an idle time that is not negative. Nothing is
  -- said of the other values.
  pub load_config-IsValid : (c : WorkerConfig Float) → load_config nums env ≡ inr c → IsValid c
  unfolding load_config
  load_config-IsValid = any-Yields IsValid _ _ λ tokens.
      bind-Yields IsValidService IsValid _ _ (load_service-IsValid _ _) λ radarr radarr_ok.
        bind-Yields IsValidService IsValid _ _ (load_service-IsValid _ _) λ sonarr sonarr_ok.
          bind-Yields (IsValidDevice tokens) IsValid _ _ (check_hardware-IsValid tokens _)
            λ path path_ok.
              bind-Yields (IsValidMedia _) IsValid _ _ (load_workflow_config-IsValid _)
                λ media media_ok. any-Yields IsValid _ _ λ stop.
                  bind-Yields IsValidLimiter IsValid _ _ load_transcode_limiter_config-IsValid
                    λ limiter limiter_ok.
                      bind-Yields (λ d. pos 0 ≤ℤ d) IsValid _ _ load_idle_exit-IsValid
                        λ idle idle_ok. inr-Yields IsValid _ (
                          path_ok,
                          radarr_ok,
                          sonarr_ok,
                          media_ok,
                          limiter_ok,
                          idle_ok,
                          or_text-ne (env "TEMPORAL_TASK_QUEUE") default_task_queue_prefix
                              (λ h. cc h),
                          or_text-ne (env "HEALTH_ADDR") ":8080" (λ h. cc h),
                        )
