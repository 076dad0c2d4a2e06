-- ===== src/Worker/Config/Tests.antt =====
-- Instances of the theorems on the worker's configuration, with floats in thousandths and 9999 as NaN:
-- an environment that sets the two services, a quality of 20, and a threshold that is not a number.
use media_processor.Prelude.{
  ℕ, ◌≡◌, ◌⊎◌, refl, Bool, true, false, ◌&&◌, not, List, [], ◌∷◌, none, some, String, str_eq, arith,
  inr, ltb, leb, ◌==◌, if◌then◌else◌,
}
use media_processor.Prelude.Int.{pos}
use media_processor.Limiter.Defs.{Floats, Limiter, normalize, admission_state}
use media_processor.Media.Workflow.{seconds}
use media_processor.Text.{trim_space}
use media_processor.Worker.Activities.{finish, resolve_tokens, apply_token, in_order}
use media_processor.Worker.Settings.{Numbers, parse_unit_float, ◌>>=◌}
use media_processor.Worker.Config.{
  LimiterConfig, WorkerConfig, known_tokens, load_transcode_limiter_config, load_config,
}
use media_processor.Worker.Config.Validity.{IsValid, load_config-IsValid}
use media_processor.Worker.Config.Threshold.{load_transcode_limiter_config-nan}

abbrev is_nan : ℕ → Bool
is_nan x = x == 9999

abbrev ordered : (ℕ → ℕ → Bool) → ℕ → ℕ → Bool
ordered r x y = not (is_nan x) && not (is_nan y) && r x y

abbrev thousandths : Floats
thousandths = record {
  Float = ℕ;
  le = ordered leb;
  lt = ordered ltb;
  float_zero = 0;
  float_one = 1000;
  four_fifths = 800;
  four_fifths_positive = refl;
  four_fifths_bounded = refl;
}

ordered-nan_left : (r : ℕ → ℕ → Bool) (x y : ℕ) → is_nan x ≡ true → ordered r x y ≡ false
ordered-nan_left r x y h = ground arith

ordered-nan_right : (r : ℕ → ℕ → Bool) (x y : ℕ) → is_nan x ≡ true → ordered r y x ≡ false
ordered-nan_right r x y h = ground arith

ordered-total :
    (x y : ℕ)
    → is_nan x ≡ false
    → is_nan y ≡ false
    → (ordered leb x y ≡ true) ⊎ (ordered ltb y x ≡ true)
ordered-total x y h k = ground arith

abbrev numbers : Numbers
numbers = record {
  floats = thousandths;
  is_nan = is_nan;
  is_inf = λ x. false;
  parse_float = λ raw. if str_eq raw "NaN" then some 9999 else none;
  parse_duration = λ raw. none;
  is_char_device = λ path. none;
  three_halves = 1500;
  nan_le = ordered-nan_left leb;
  nan_lt = ordered-nan_right ltb;
  le_or_lt = ordered-total;
  zero_is_number = refl;
  one_is_number = refl;
  three_halves_finite = refl;
  three_halves_bounded = refl;
}

abbrev value_of : List (String × String) → String → String
value_of [] name = ""
value_of ((n, v) ∷ vs) name = if str_eq n name then v else value_of vs name

abbrev env : String → String
env = value_of (
    ("RADARR_URL", "http://radarr")
    ∷ ("RADARR_API_KEY", "key")
    ∷ ("SONARR_URL", "http://sonarr")
    ∷ ("SONARR_API_KEY", "key")
    ∷ ("MEDIA_H265_CRF", "20")
    ∷ ("MEDIA_TRANSCODE_LIMITER_GPU_THRESHOLD", "NaN")
    ∷ [])

abbrev limiter_config : LimiterConfig ℕ
limiter_config = record {
  limiter = record {
    static_cap = pos 5;
    gpu_threshold = 9999;
    post_admission_cooldown = seconds 3;
  };
  sample_interval = pos 500_000_000;
  smoothing_window = pos 5;
}

abbrev config : WorkerConfig ℕ
config = record {
  log_level = "";
  task_queue_prefix = "media-processor";
  enabled_tokens = known_tokens;
  health_addr = ":8080";
  webhook_url = "";
  worker_stop_timeout = seconds 14_400;
  hardware_device_path_override = "";
  radarr = record { url = "http://radarr"; api_key = "key" };
  sonarr = record { url = "http://sonarr"; api_key = "key" };
  workflow = record {
    workflow = record {
      task_queue_prefix = "media-processor";
      detect_crop_timeout = seconds 1800;
      transcode_timeout = seconds 14_400;
      progress_log_interval = seconds 30;
      notify_initial_interval = seconds 5;
      notify_maximum_interval = seconds 60;
      notify_maximum_attempts = 15;
    };
    high_cardinality_labels = false;
    min_crop_x = pos 10;
    min_crop_y = pos 10;
    h265_crf = pos 20;
    notify_backoff_coefficient = 1500;
  };
  transcode_limiter = limiter_config;
  idle_exit_after = pos 0;
}

config-loaded : load_config numbers env ≡ inr config
unfolding load_config ◌>>=◌ finish resolve_tokens trim_space apply_token in_order
config-loaded = refl

load_config-IsValid_example : IsValid numbers env config
load_config-IsValid_example = load_config-IsValid numbers env config config-loaded

limiter_config-loaded : load_transcode_limiter_config numbers env ≡ inr limiter_config
unfolding load_transcode_limiter_config ◌>>=◌
limiter_config-loaded = refl

abbrev limiter : Limiter ℕ
limiter = record {
  cfg = limiter_config.limiter;
  poll_interval = pos 100_000_000;
  in_flight = 1;
  last_admit = 0;
  fallback = false;
  marked = 7 ∷ [];
  closed = false;
}

limiter-normal : limiter.cfg ≡ normalize thousandths limiter_config.limiter
unfolding normalize
limiter-normal = refl

load_transcode_limiter_config-nan_example :
    (parse_unit_float numbers env "MEDIA_TRANSCODE_LIMITER_GPU_THRESHOLD" 800 ≡ inr 9999)
    × (limiter.cfg.gpu_threshold ≡ 9999)
    × (admission_state thousandths limiter 1000 5 ≡ admission_state thousandths limiter 0 5)
load_transcode_limiter_config-nan_example =
    load_transcode_limiter_config-nan numbers env 9999 limiter_config limiter 1000 0 5 (λ h. cc h)
      refl refl limiter_config-loaded limiter-normal
