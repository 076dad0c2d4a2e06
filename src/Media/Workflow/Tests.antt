-- ===== src/Media/Workflow/Tests.antt =====
-- Instances of the theorems on the workflow: a movie that is imported, and one whose transcode fails.
use media_processor.Prelude.{refl, true, false, [], ◌∷◌, none, some}
use media_processor.Prelude.Int.{pos}
use media_processor.Media.Types.{movie_type, MediaInput, ProbeOutput}
use media_processor.Media.Workflow.{
  transcode, WorkflowConfig, ok, err, Answers, no_transcode, no_notify, media_body, media_workflow,
}
use media_processor.Media.Workflow.Order.{All, Grounds, media_workflow-grounds}
use media_processor.Media.Workflow.Failure.{Reports, reported, media_workflow-Reports}
use media_processor.Media.Workflow.Sequence.{Rising, media_workflow-Rising}

abbrev config : WorkflowConfig
config = record {
  task_queue_prefix = "media-processor";
  detect_crop_timeout = pos 3_600_000_000_000;
  transcode_timeout = pos 86_400_000_000_000;
  progress_log_interval = pos 30_000_000_000;
  notify_initial_interval = pos 1_000_000_000;
  notify_maximum_interval = pos 60_000_000_000;
  notify_maximum_attempts = 5;
}

abbrev input : MediaInput
input = record {
  file_path = "film.ts" ∷ "downloads" ∷ [];
  media_type = movie_type;
  mapping_name = "movies";
  preserve_source = false;
  watch_root = some ("downloads" ∷ []);
  retain_empty_directories = false;
  skip_crop_detection = false;
  output_path = some ("output" ∷ []);
  output_remote_path = none;
}

abbrev found : ProbeOutput
found = record {
  is_valid_media = true;
  video_codec = "mpeg2video";
  format = "mpegts";
  duration = pos 5_400_000_000_000;
  audio_streams = [];
  subtitle_streams = [];
  video_width = pos 1920;
  video_height = pos 1080;
}

-- Every activity succeeds.
abbrev successes : Answers
successes = record {
  on_probe = λ _. ok found;
  on_detect_crop = λ _ _. ok none;
  on_transcode = λ _ _ _. ok no_transcode;
  on_notify = λ _ _. ok no_notify;
  on_cleanup = λ _ _ _. ok tt;
}

-- The transcode fails.
abbrev broken : Answers
broken = record successes {
  on_transcode = λ _ _ _. err (record { activity = some transcode; message = "ffmpeg failed" });
}

media_workflow-grounds_example :
    All (λ c. Grounds successes input c.argument) (media_workflow config successes input).0
media_workflow-grounds_example = media_workflow-grounds config successes input

media_workflow-Rising_example : Rising 0 6 (media_workflow config broken input).0
media_workflow-Rising_example = media_workflow-Rising config broken input

media_workflow-Reports_example :
    Reports
      (media_body config broken input)
      (reported (media_workflow config broken input).0)
      (media_workflow config broken input).1
media_workflow-Reports_example = media_workflow-Reports config broken input (record {
  probe_named = λ _. tt;
  detect_crop_named = λ _ _. tt;
  transcode_named = λ _ _ _. refl;
  notify_named = λ _ _. tt;
  cleanup_named = λ _ _ _. tt;
})
