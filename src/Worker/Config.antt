-- ===== src/Worker/Config.antt =====
-- cmd/worker/config.go: the worker's configuration, read from the environment. Log lines are left out.
pub mod Validity
pub mod Threshold
pub mod Tests
use media_processor.Prelude.{
  ℕ, ◌≡◌, ◌⊎◌, inl, inr, Bool, true, false, ◌&&◌, ◌||◌, not, List, [], ◌∷◌, Option, none, some,
  String, str_eq, if◌then◌else◌,
}
use media_processor.Prelude.Int.{ℤ, pos, pos_part, leb_ℤ, ltb_ℤ}
use media_processor.Text.{codes}
use media_processor.Text.Decimal.{parse_int}
use media_processor.Limiter.Defs.{Floats, Config}
use media_processor.Media.Workflow.{WorkflowConfig, seconds}
use media_processor.Media.Activities.{
  default_task_queue_prefix, default_detect_crop_timeout, default_transcode_timeout,
  default_notify_initial_interval, default_notify_maximum_interval, default_notify_maximum_attempts,
}
use media_processor.Worker.Activities.{
  ResolveError, contains, resolve_activities, parse_worker_activities,
}
use media_processor.Worker.Settings.{
  Numbers, ConfigError, invalid, bad_activities, ◌>>=◌, or_text, require_env, parse_bool,
  parse_positive_int, parse_unit_float, parse_crop_threshold, parse_h265_crf, parse_timeout,
  parse_positive_timeout, parse_positive_int32, parse_backoff_coefficient,
}

-- `transcodeLimiterConfig`.
pub record LimiterConfig (F : Type 0) : Type 0 where
  pub limiter : Config F
  pub sample_interval : ℤ
  pub smoothing_window : ℤ

-- `MediaWorkflowConfig`: what the workflow reads of it, and the rest.
pub record MediaConfig (F : Type 0) : Type 0 where
  pub workflow : WorkflowConfig
  pub high_cardinality_labels : Bool
  pub min_crop_x : ℤ
  pub min_crop_y : ℤ
  pub h265_crf : ℤ
  pub notify_backoff_coefficient : F

-- The URL and the key of a service.
pub record ServiceConfig : Type 0 where
  pub url : String
  pub api_key : String

-- `workerConfig`.
pub record WorkerConfig (F : Type 0) : Type 0 where
  pub log_level : String
  pub task_queue_prefix : String
  pub enabled_tokens : List String
  pub health_addr : String
  pub webhook_url : String
  pub worker_stop_timeout : ℤ
  pub hardware_device_path_override : String
  pub radarr : ServiceConfig
  pub sonarr : ServiceConfig
  pub workflow : MediaConfig F
  pub transcode_limiter : LimiterConfig F
  pub idle_exit_after : ℤ

abbrev default_limiter_static_cap : ℤ
default_limiter_static_cap = pos 5

abbrev default_limiter_post_admission_cooldown : ℤ
default_limiter_post_admission_cooldown = seconds 3

abbrev default_limiter_sample_interval : ℤ
default_limiter_sample_interval = pos 500_000_000

abbrev default_limiter_smoothing_window : ℤ
default_limiter_smoothing_window = pos 5

abbrev default_health_addr : String
default_health_addr = ":8080"

abbrev workflow_token : String
workflow_token = "workflow"

abbrev transcode_activity_token : String
transcode_activity_token = "transcode"

-- The workflow, and `KnownActivities`.
abbrev pub known_tokens : List String
known_tokens =
    workflow_token ∷ "probe" ∷ "detect-crop" ∷ transcode_activity_token ∷ "notify" ∷ "cleanup"
    ∷ "notify-failure" ∷ []

module _ (nums : Numbers) (env : String → String) where
  open nums use {floats, is_char_device, three_halves}
  open floats use {Float, four_fifths}

  unfoldable pub load_transcode_limiter_config : ConfigError ⊎ LimiterConfig Float
  unfolding parse_positive_int parse_unit_float parse_timeout
  load_transcode_limiter_config = do
    cap ←
        parse_positive_int nums env "MEDIA_TRANSCODE_LIMITER_STATIC_CAP" default_limiter_static_cap
    threshold ← parse_unit_float nums env "MEDIA_TRANSCODE_LIMITER_GPU_THRESHOLD" four_fifths
    cooldown ←
        parse_timeout nums env "MEDIA_TRANSCODE_LIMITER_POST_ADMISSION_COOLDOWN"
          default_limiter_post_admission_cooldown
    interval ←
        parse_timeout nums env "MEDIA_TRANSCODE_LIMITER_SAMPLE_INTERVAL"
          default_limiter_sample_interval
    window ←
        parse_positive_int nums env "MEDIA_TRANSCODE_LIMITER_SMOOTHING_WINDOW"
          default_limiter_smoothing_window
    inr (record {
      limiter = record {
        static_cap = cap;
        gpu_threshold = threshold;
        post_admission_cooldown = cooldown;
      };
      sample_interval = interval;
      smoothing_window = window;
    })

  -- `loadWorkflowConfig`, with the prefix that `loadConfig` gives it.
  unfoldable pub load_workflow_config : String → ConfigError ⊎ MediaConfig Float
  unfolding parse_crop_threshold parse_timeout parse_h265_crf parse_bool parse_positive_timeout
      parse_backoff_coefficient parse_positive_int32
  load_workflow_config prefix = do
    x ← parse_crop_threshold nums env "MEDIA_MIN_CROP_X" (pos 10)
    y ← parse_crop_threshold nums env "MEDIA_MIN_CROP_Y" (pos 10)
    detect ← parse_timeout nums env "MEDIA_DETECT_CROP_TIMEOUT" default_detect_crop_timeout
    transcode ← parse_timeout nums env "MEDIA_TRANSCODE_TIMEOUT" default_transcode_timeout
    crf ← parse_h265_crf nums env "MEDIA_H265_CRF"
    progress ← parse_timeout nums env "MEDIA_PROGRESS_LOG_INTERVAL" (seconds 30)
    labels ← parse_bool nums env "METRICS_HIGH_CARDINALITY_LABELS" false
    initial ←
        parse_positive_timeout nums env "MEDIA_NOTIFY_INITIAL_INTERVAL"
          default_notify_initial_interval
    coefficient ← parse_backoff_coefficient nums env "MEDIA_NOTIFY_BACKOFF_COEFFICIENT" three_halves
    maximum ←
        parse_positive_timeout nums env "MEDIA_NOTIFY_MAXIMUM_INTERVAL"
          default_notify_maximum_interval
    attempts ←
        parse_positive_int32 nums env "MEDIA_NOTIFY_MAXIMUM_ATTEMPTS"
          default_notify_maximum_attempts
    inr (record {
      workflow = record {
        task_queue_prefix = prefix;
        detect_crop_timeout = detect;
        transcode_timeout = transcode;
        progress_log_interval = progress;
        notify_initial_interval = initial;
        notify_maximum_interval = maximum;
        notify_maximum_attempts = attempts;
      };
      high_cardinality_labels = labels;
      min_crop_x = x;
      min_crop_y = y;
      h265_crf = crf;
      notify_backoff_coefficient = coefficient;
    })

  unfoldable pub validate_hardware_device_path : String → ConfigError ⊎ String
  validate_hardware_device_path path =
      if str_eq path "" then inr path else elim (is_char_device path) [
        | none ↦ inl (invalid "MEDIA_HARDWARE_DEVICE_PATH")
        | some device ↦ if device then inr path else inl (invalid "MEDIA_HARDWARE_DEVICE_PATH")
      ]

  -- The path is validated by a worker that transcodes.
  unfoldable pub check_hardware : List String → String → ConfigError ⊎ String
  unfolding contains validate_hardware_device_path
  check_hardware tokens path =
      if contains tokens transcode_activity_token
      then validate_hardware_device_path path
      else inr path

  unfoldable pub load_activities : ConfigError ⊎ List String
  unfolding resolve_activities parse_worker_activities
  load_activities =
      elim (resolve_activities (parse_worker_activities (env "WORKER_ACTIVITIES")) known_tokens) [
        | inl e ↦ inl (bad_activities e)
        | inr tokens ↦ inr tokens
      ]

  -- The variables of a service.
  unfoldable pub load_service : String → String → ConfigError ⊎ ServiceConfig
  unfolding require_env
  load_service url_name key_name = do
    url ← require_env nums env url_name
    key ← require_env nums env key_name
    inr (record { url = url; api_key = key })

  unfoldable pub load_idle_exit : ConfigError ⊎ ℤ
  unfolding parse_timeout
  load_idle_exit = parse_timeout nums env "WORKER_IDLE_EXIT_AFTER" (pos 0) >>= λ d.
      if ltb_ℤ d (pos 0) then inl (invalid "WORKER_IDLE_EXIT_AFTER") else inr d

  -- `loadConfig`.
  unfoldable pub load_config : ConfigError ⊎ WorkerConfig Float
  unfolding or_text load_activities load_service check_hardware load_workflow_config parse_timeout
      load_transcode_limiter_config load_idle_exit
  load_config = do
    tokens ← load_activities
    radarr ← load_service "RADARR_URL" "RADARR_API_KEY"
    sonarr ← load_service "SONARR_URL" "SONARR_API_KEY"
    path ← check_hardware tokens (env "MEDIA_HARDWARE_DEVICE_PATH")
    media ← load_workflow_config (or_text (env "TEMPORAL_TASK_QUEUE") default_task_queue_prefix)
    stop ← parse_timeout nums env "WORKER_STOP_TIMEOUT" media.workflow.transcode_timeout
    limiter ← load_transcode_limiter_config
    idle ← load_idle_exit
    inr (record {
      log_level = env "LOG_LEVEL";
      task_queue_prefix = or_text (env "TEMPORAL_TASK_QUEUE") default_task_queue_prefix;
      enabled_tokens = tokens;
      health_addr = or_text (env "HEALTH_ADDR") default_health_addr;
      webhook_url = env "MEDIA_WEBHOOK_URL";
      worker_stop_timeout = stop;
      hardware_device_path_override = path;
      radarr = radarr;
      sonarr = sonarr;
      workflow = media;
      transcode_limiter = limiter;
      idle_exit_after = idle;
    })
