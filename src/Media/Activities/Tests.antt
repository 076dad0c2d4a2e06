-- ===== src/Media/Activities/Tests.antt =====
-- Instances of the theorems on the activities: an episode is transcoded, and the library sees it under
-- another root.
use media_processor.Prelude.{refl, true, false, [], ◌∷◌, none, some}
use media_processor.Prelude.Int.{pos}
use media_processor.Files.Paths.{dir, base, same_path, rel, rel_from}
use media_processor.Files.Tree.{lookup, erase, write}
use media_processor.Media.Types.{show_type, MediaInput, TranscodeOutput}
use media_processor.Media.OutputPath.{
  has_dot, strip_extension, mkv_base, final_path, temp_path, effective_output_dir,
}
use media_processor.Media.Surroundings.{encoded, mkdir_all, rename, node_size, stat}
use media_processor.Media.Streams.{select_video_codec, codec_name}
use media_processor.Media.Transcode.{
  build_job, publish_output, measure_output, made_output, video_codec, artwork, leave_output,
  encode_output, produce_output, prepare_output, reuse_node, reuse_existing_output, run_transcode,
}
use media_processor.Media.Transcode.Tests.{source, tree, world, request, result}
use media_processor.Media.Notify.{ImportCall, ImportAnswer, imported, get_arr_library, notify}
use media_processor.Media.Workflow.{WorkflowConfig}
use media_processor.Media.Activities.{transcode_to, transcode_activity}
use media_processor.Media.Activities.Handover.{IsAsked, notify-transcode_activity}

abbrev input : MediaInput
input = record {
  file_path = source;
  media_type = show_type;
  mapping_name = "shows";
  preserve_source = false;
  watch_root = some ("downloads" ∷ []);
  retain_empty_directories = false;
  skip_crop_detection = false;
  output_path = some ("output" ∷ []);
  output_remote_path = some ("media" ∷ "mnt" ∷ []);
}

-- The poster is missing.
abbrev output : TranscodeOutput
output = record result { artwork_fetch_skipped = true }

abbrev imports : ImportCall → ImportAnswer
imports _ = imported

notify-transcode_activity_example : IsAsked imports (notify imports input output)
unfolding stat build_job transcode_activity transcode_to get_arr_library run_transcode lookup
    same_path prepare_output effective_output_dir rel rel_from dir base mkdir_all produce_output
    reuse_existing_output reuse_node write final_path temp_path mkv_base strip_extension has_dot
    erase encode_output publish_output rename leave_output measure_output made_output video_codec
    select_video_codec codec_name artwork node_size
notify-transcode_activity_example =
    notify-transcode_activity (world (encoded 2 false)) request.settings input request.probe none
      tree output imports refl

-- A configuration with only a prefix.
abbrev sparse : WorkflowConfig
sparse = record {
  task_queue_prefix = "staging";
  detect_crop_timeout = pos 0;
  transcode_timeout = pos 0;
  progress_log_interval = pos 0;
  notify_initial_interval = pos 0;
  notify_maximum_interval = pos 0;
  notify_maximum_attempts = 0;
}
