-- ===== src/Media/Activities.antt =====
-- workflows/media/activities.go: `NewActivities`, and the Probe, DetectCrop and Transcode activities
-- around the functions they wrap. The tags of metrics and the heartbeat are left out.
pub mod Defaults
pub mod Handover
pub mod Tests
use media_processor.Prelude.{
  ℕ, ◌==◌, Bool, true, Option, none, some, String, str_eq, ◌⊎◌, inl, inr, if◌then◌else◌,
}
use media_processor.Prelude.Int.{ℤ, pos, eqb_ℤ}
use media_processor.Files.Paths.{FilePath}
use media_processor.Files.Tree.{Tree}
use media_processor.Media.Types.{MediaInput, ProbeOutput, CropParams, TranscodeOutput}
use media_processor.Media.Workflow.{WorkflowConfig, seconds}
use media_processor.Media.Cleanup.{Faults}
use media_processor.Media.Probe.{Answer, ProbeRun, Policy, run_probe}
use media_processor.Media.Crop.{CropRun, run_detect_crop}
use media_processor.Media.Notify.{Library, get_arr_library}
use media_processor.Media.Surroundings.{World, TranscodeSettings, TranscodeRequest, TranscodeError}
use media_processor.Media.Transcode.{run_transcode}

abbrev pub default_task_queue_prefix : String
default_task_queue_prefix = "media-processor"

abbrev pub default_detect_crop_timeout : ℤ
default_detect_crop_timeout = seconds 1800

abbrev pub default_transcode_timeout : ℤ
default_transcode_timeout = seconds 14_400

abbrev pub default_notify_initial_interval : ℤ
default_notify_initial_interval = seconds 5

abbrev pub default_notify_maximum_interval : ℤ
default_notify_maximum_interval = seconds 60

abbrev pub default_notify_maximum_attempts : ℕ
default_notify_maximum_attempts = 15

abbrev or_default : ℤ → ℤ → ℤ
or_default d v = if eqb_ℤ v (pos 0) then d else v

-- The defaults that `NewActivities` applies, without the float64 backoff coefficient.
unfoldable pub new_activities : WorkflowConfig → WorkflowConfig
new_activities cfg = record cfg {
  task_queue_prefix =
      if str_eq cfg.task_queue_prefix "" then default_task_queue_prefix else cfg.task_queue_prefix;
  detect_crop_timeout = or_default default_detect_crop_timeout cfg.detect_crop_timeout;
  transcode_timeout = or_default default_transcode_timeout cfg.transcode_timeout;
  notify_initial_interval = or_default default_notify_initial_interval cfg.notify_initial_interval;
  notify_maximum_interval = or_default default_notify_maximum_interval cfg.notify_maximum_interval;
  notify_maximum_attempts =
      if cfg.notify_maximum_attempts == 0
      then default_notify_maximum_attempts
      else cfg.notify_maximum_attempts;
}

-- `Probe`.
unfoldable pub probe_activity : Faults → Answer → MediaInput → Tree → ProbeRun
probe_activity f a input = run_probe f a input.file_path (record {
  watch_root = input.watch_root;
  retain_empty_dirs = input.retain_empty_directories;
  preserve_source = input.preserve_source;
})

-- `DetectCrop`, with the thresholds of the configuration.
unfoldable pub detect_crop_activity :
    {E : Type 0} → ℤ → ℤ → E ⊎ CropParams → ProbeOutput → CropRun E
detect_crop_activity min_crop_x min_crop_y detected p =
    run_detect_crop detected p.video_width p.video_height min_crop_x min_crop_y

pub data TranscodeFailure : Type 0 where
  unknown_library output_path_required : TranscodeFailure
  run_failed : TranscodeError → TranscodeFailure

abbrev pub ActivityRun : Type 0
ActivityRun = Tree × (TranscodeFailure ⊎ TranscodeOutput)

abbrev pub wrapped : Tree × (TranscodeError ⊎ TranscodeOutput) → ActivityRun
wrapped (t, inl e) = (t, inl (run_failed e))
wrapped (t, inr o) = (t, inr o)

-- The request, whose library is there, with the settings of the activities.
abbrev pub request_of :
    TranscodeSettings → MediaInput → ProbeOutput → Option CropParams → FilePath → TranscodeRequest
request_of settings input p c output = record {
  file_path = input.file_path;
  probe = p;
  crop_params = c;
  output_dir = output;
  watcher_root = input.watch_root;
  library = true;
  settings = settings;
}

unfoldable pub transcode_to :
    World
    → TranscodeSettings
    → MediaInput
    → ProbeOutput
    → Option CropParams
    → Tree
    → Option (FilePath)
    → ActivityRun
transcode_to w settings input p c t none = (t, inl output_path_required)
transcode_to w settings input p c t (some output) =
    wrapped (run_transcode w (request_of settings input p c output) t)

-- `Transcode`.
unfoldable pub transcode_activity :
    World → TranscodeSettings → MediaInput → ProbeOutput → Option CropParams → Tree → ActivityRun
transcode_activity w settings input p c t = elim (get_arr_library input.media_type) [
  | none ↦ (t, inl unknown_library)
  | some l ↦ transcode_to w settings input p c t input.output_path
]
