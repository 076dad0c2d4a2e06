-- ===== src/Media/Workflow.antt =====
-- workflows/media/workflow.go and the options of config.go. Temporal runs the activities: what each
-- answers after its retries is a parameter, and the workflow is the list of its calls and its end.
pub mod Order
pub mod Sequence
pub mod Failure
pub mod Routing
pub mod Tests
use Prim.Native.String.{◌++◌ as str_append}
use media_processor.Ffmpeg.Int64.{wrap}
use media_processor.Prelude.{
  ℕ, ◌*◌, Bool, true, false, not, List, [], ◌∷◌, ◌++◌, Option, none, some, String, ltb,
  if◌then◌else◌,
}
use media_processor.Prelude.Int.{ℤ, pos, ltb_ℤ, leb_ℤ, ◌+ℤ◌}
use media_processor.Media.Types.{MediaInput, ProbeOutput, CropParams, TranscodeOutput, NotifyOutput}

pub data ActivityName : Type 0 where
  probe detect_crop transcode notify cleanup notify_failure : ActivityName

-- `ActivityTokensByName`.
unfoldable pub activity_token : ActivityName → String
activity_token probe = "probe"
activity_token detect_crop = "detect-crop"
activity_token transcode = "transcode"
activity_token notify = "notify"
activity_token cleanup = "cleanup"
activity_token notify_failure = "notify-failure"

-- `ActivityTaskQueue` and `ActivityTaskQueueByName`.
unfoldable pub activity_task_queue : String → ActivityName → String
activity_task_queue prefix name = str_append prefix (str_append "-" (activity_token name))

-- The retry policy; Temporal's own defaults stand where a field is `none`.
pub record RetryPolicy : Type 0 where
  pub initial_interval : Option ℤ
  pub maximum_interval : Option ℤ
  pub maximum_attempts : ℕ

pub record ActivityOptions : Type 0 where
  pub task_queue : String
  pub start_to_close_timeout : ℤ
  pub heartbeat_timeout : ℤ
  pub retry_policy : RetryPolicy

-- The part of `MediaWorkflowConfig` that the workflow reads; durations are in nanoseconds.
pub record WorkflowConfig : Type 0 where
  pub task_queue_prefix : String
  pub detect_crop_timeout : ℤ
  pub transcode_timeout : ℤ
  pub progress_log_interval : ℤ
  pub notify_initial_interval : ℤ
  pub notify_maximum_interval : ℤ
  pub notify_maximum_attempts : ℕ

abbrev pub seconds : ℕ → ℤ
seconds n = pos (n * 1_000_000_000)

abbrev pub default_probe_timeout : ℤ
default_probe_timeout = seconds 300

abbrev pub default_finalize_timeout : ℤ
default_finalize_timeout = seconds 600

abbrev pub default_notify_timeout : ℤ
default_notify_timeout = seconds 3600

abbrev pub default_max_attempts : ℕ
default_max_attempts = 1

abbrev pub cleanup_max_attempts : ℕ
cleanup_max_attempts = 3

-- `activityOptions`.
unfoldable pub activity_options : WorkflowConfig → ActivityName → ℤ → ℕ → ActivityOptions
activity_options cfg name timeout attempts = record {
  task_queue = activity_task_queue cfg.task_queue_prefix name;
  start_to_close_timeout = timeout;
  heartbeat_timeout = pos 0;
  retry_policy = record {
    initial_interval = none;
    maximum_interval = none;
    maximum_attempts = attempts;
  };
}

-- `notifyActivityOptions`, without the float64 backoff coefficient.
unfoldable pub notify_activity_options : WorkflowConfig → ActivityOptions
notify_activity_options cfg = record {
  task_queue = activity_task_queue cfg.task_queue_prefix notify;
  start_to_close_timeout = default_notify_timeout;
  heartbeat_timeout = pos 0;
  retry_policy = record {
    initial_interval = some cfg.notify_initial_interval;
    maximum_interval = some cfg.notify_maximum_interval;
    maximum_attempts = cfg.notify_maximum_attempts;
  };
}

-- `transcodeHeartbeatTimeout`, in the int64 of a `time.Duration`.
unfoldable pub transcode_heartbeat_timeout : ℤ → ℤ
transcode_heartbeat_timeout interval =
    if leb_ℤ interval (pos 0) then pos 0 else wrap (interval +ℤ interval)

-- An error that ends the workflow: of an activity, by its name, or any other.
pub record WorkflowError : Type 0 where
  pub activity : Option ActivityName
  pub message : String

pub data Result {ℓ} (A : Type ℓ) : Type ℓ where
  ok : A → Result A
  err : WorkflowError → Result A

-- The step of the failure webhook: "unknown" is `none`.
pub data Argument : Type 0 where
  probe_argument : Argument
  detect_crop_argument : ProbeOutput → Argument
  transcode_argument : ProbeOutput → Option CropParams → Argument
  notify_argument : TranscodeOutput → Argument
  cleanup_argument : TranscodeOutput → NotifyOutput → Argument
  failure_argument : Option ActivityName → String → Argument

-- One `ExecuteActivity`; each also takes the workflow's input.
pub record Call : Type 0 where
  pub name : ActivityName
  pub options : ActivityOptions
  pub argument : Argument

-- What the activities answer.
pub record Answers : Type 0 where
  pub on_probe : MediaInput → Result ProbeOutput
  pub on_detect_crop : MediaInput → ProbeOutput → Result (Option CropParams)
  pub on_transcode : MediaInput → ProbeOutput → Option CropParams → Result TranscodeOutput
  pub on_notify : MediaInput → TranscodeOutput → Result NotifyOutput
  pub on_cleanup : MediaInput → TranscodeOutput → NotifyOutput → Result (Unit {0})

-- A workflow so far: the calls made, and its value or the error that ended it.
abbrev pub Flow : Type 0 → Type 0
Flow A = List Call × Result A

abbrev pub after_step : {A B : Type 0} → List Call → (A → Flow B) → Result A → Flow B
after_step cs f (ok a) = let (ds, r) = f a in (cs ++ ds, r)
after_step cs f (err e) = (cs, err e)

infixl 5 ◌>>=◌
abbrev pub ◌>>=◌ : {A B : Type 0} → Flow A → (A → Flow B) → Flow B
m >>= f = after_step m.0 f m.1

-- `workflow.ExecuteActivity(...).Get(...)`.
unfoldable pub execute :
    {A : Type 0} → ActivityName → ActivityOptions → Argument → Result A → Flow A
execute name options argument answer =
    (record { name = name; options = options; argument = argument } ∷ [], answer)

-- `TranscodeOutput{}` and `NotifyOutput{}`.
abbrev pub no_transcode : TranscodeOutput
no_transcode = record {
  dest_codec = "";
  dest_container = "";
  dest_file_path = none;
  source_file_size_bytes = 0;
  dest_file_size_bytes = 0;
  artwork_fetch_skipped = false;
  crop_applied = false;
  hardware_accelerated = false;
}

abbrev pub no_notify : NotifyOutput
no_notify = record { import_skipped = false }

module _ (cfg : WorkflowConfig) (answers : Answers) (input : MediaInput) where
  unfoldable pub call_cleanup : TranscodeOutput → NotifyOutput → Flow (Unit {0})
  unfolding execute
  call_cleanup t n =
      execute cleanup (activity_options cfg cleanup default_finalize_timeout cleanup_max_attempts)
        (cleanup_argument t n) (answers.on_cleanup input t n)

  -- The crop of a valid file: not looked for where the watch disables it.
  unfoldable pub call_detect_crop : ProbeOutput → Flow (Option CropParams)
  unfolding execute
  call_detect_crop p =
      if input.skip_crop_detection
      then ([], ok none)
      else execute detect_crop
          (activity_options cfg detect_crop cfg.detect_crop_timeout default_max_attempts)
          (detect_crop_argument p) (answers.on_detect_crop input p)

  unfoldable pub transcode_options : ActivityOptions
  unfolding activity_options
  transcode_options =
      let o = activity_options cfg transcode cfg.transcode_timeout default_max_attempts in
      record o { heartbeat_timeout = transcode_heartbeat_timeout cfg.progress_log_interval }

  unfoldable pub process_valid : ProbeOutput → Flow (Unit {0})
  unfolding execute call_detect_crop call_cleanup
  process_valid p = do
    c ← call_detect_crop p
    t ←
        execute transcode transcode_options (transcode_argument p c)
          (answers.on_transcode input p c)
    n ← execute notify (notify_activity_options cfg) (notify_argument t) (answers.on_notify input t)
    call_cleanup t n

  -- The body of `MediaWorkflow`.
  unfoldable pub media_body : Flow (Unit {0})
  unfolding execute call_cleanup process_valid
  media_body = do
    p ←
        execute probe (activity_options cfg probe default_probe_timeout default_max_attempts)
          probe_argument (answers.on_probe input)
    if p.is_valid_media then process_valid p else call_cleanup no_transcode no_notify

  -- The deferred failure webhook, whose own failure is only logged.
  unfoldable pub report_failure : Flow (Unit {0}) → Flow (Unit {0})
  report_failure (cs, ok u) = (cs, ok u)
  report_failure (cs, err e) = (
    cs
        ++ record {
          name = notify_failure;
          options =
              activity_options cfg notify_failure default_finalize_timeout default_max_attempts;
          argument = failure_argument e.activity e.message;
        }
          ∷ [],
    err e,
  )

  -- `MediaWorkflow`.
  unfoldable pub media_workflow : Flow (Unit {0})
  unfolding media_body report_failure
  media_workflow = report_failure media_body
