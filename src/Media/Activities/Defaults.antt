-- ===== src/Media/Activities/Defaults.antt =====
-- workflows/media/activities.go: the configuration that `NewActivities` fills in.
use media_processor.Prelude.{◌≡◌, ◌≢◌, arith, eq_iff}
use media_processor.Prelude.Int.{pos, eq_of_parts}
use media_processor.Media.Workflow.{WorkflowConfig}
use media_processor.Media.Activities.{new_activities}

-- Every field that has a default is set.
pub record IsComplete (cfg : WorkflowConfig) : Type 0 where
  pub prefixed : cfg.task_queue_prefix ≢ ""
  pub detect_crop_timed : cfg.detect_crop_timeout ≢ pos 0
  pub transcode_timed : cfg.transcode_timeout ≢ pos 0
  pub initially_spaced : cfg.notify_initial_interval ≢ pos 0
  pub maximally_spaced : cfg.notify_maximum_interval ≢ pos 0
  pub attempted : cfg.notify_maximum_attempts ≢ 0

-- After the defaults, every field that has one is set.
new_activities-IsComplete : (cfg : WorkflowConfig) → IsComplete (new_activities cfg)
unfolding new_activities
new_activities-IsComplete cfg = record {
  prefixed = ground (arith, eq_iff cfg.task_queue_prefix "", eq_iff "media-processor" "");
  detect_crop_timed = ground arith;
  transcode_timed = ground arith;
  initially_spaced = ground arith;
  maximally_spaced = ground arith;
  attempted = ground arith;
}

-- A configuration with every such field set is kept as it is.
new_activities_id : (cfg : WorkflowConfig) → IsComplete cfg → new_activities cfg ≡ cfg
unfolding new_activities
new_activities_id cfg c = ground (
  arith,
  eq_iff cfg.task_queue_prefix "",
  eq_of_parts cfg.detect_crop_timeout (pos 0),
  eq_of_parts cfg.transcode_timeout (pos 0),
  eq_of_parts cfg.notify_initial_interval (pos 0),
  eq_of_parts cfg.notify_maximum_interval (pos 0),
)
