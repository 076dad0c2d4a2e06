-- ===== src/Media/Workflow/Routing.antt =====
-- workflows/media/config.go and workflow.go: the task queue and the attempts of each call.
use text.Mathlib.TextLemmas.{append_cancel_left}
use media_processor.Prelude.{ℕ, ◌≡◌, ◌≢◌, refl, ap, sym, ◌∙◌, String, if◌then◌else◌, str_eq}
use media_processor.Media.Types.{MediaInput, ProbeOutput, TranscodeOutput, NotifyOutput}
use media_processor.Media.Workflow.{
  ActivityName, probe, detect_crop, transcode, notify, cleanup, notify_failure, activity_token,
  activity_task_queue, WorkflowConfig, activity_options, notify_activity_options,
  cleanup_max_attempts, default_max_attempts, ok, err, Call, Answers, Flow, execute, call_cleanup,
  call_detect_crop, transcode_options, process_valid, media_body, report_failure, media_workflow,
  no_transcode, no_notify,
}
use media_processor.Media.Workflow.Order.{All, All-append, All-bind, All-if}

-- The activity of a token, for the check that tokens are distinct.
of_token : String → ActivityName
of_token t =
    if str_eq t "probe"
    then probe
    else if str_eq t "detect-crop"
    then detect_crop
    else if str_eq t "transcode"
    then transcode
    else if str_eq t "notify"
    then notify
    else if str_eq t "cleanup"
    then cleanup
    else notify_failure

of_token-activity_token : (a : ActivityName) → of_token (activity_token a) ≡ a
unfolding of_token activity_token
of_token-activity_token probe = refl
of_token-activity_token detect_crop = refl
of_token-activity_token transcode = refl
of_token-activity_token notify = refl
of_token-activity_token cleanup = refl
of_token-activity_token notify_failure = refl

-- Under one prefix, two different activities have different task queues.
activity_task_queue-ne :
    (prefix : String) (a b : ActivityName)
    → a ≢ b
    → activity_task_queue prefix a ≢ activity_task_queue prefix b
unfolding activity_task_queue
activity_task_queue-ne prefix a b n h =
    let same = append_cancel_left "-" _ _ (append_cancel_left prefix _ _ h) in
    n (sym (of_token-activity_token a) ∙ ap of_token same ∙ of_token-activity_token b)

-- How often Temporal may try an activity.
abbrev pub attempts_of : WorkflowConfig → ActivityName → ℕ
attempts_of cfg notify = cfg.notify_maximum_attempts
attempts_of cfg cleanup = cleanup_max_attempts
attempts_of cfg _ = default_max_attempts

abbrev pub RoutedBy : WorkflowConfig → Call → Type 0
RoutedBy cfg c =
    (c.options.task_queue ≡ activity_task_queue cfg.task_queue_prefix c.name)
    × (c.options.retry_policy.maximum_attempts ≡ attempts_of cfg c.name)

module _ (cfg : WorkflowConfig) (answers : Answers) (input : MediaInput) where
  detect_crop-RoutedBy :
      (p : ProbeOutput) → All (RoutedBy cfg) (call_detect_crop cfg answers input p).0
  unfolding call_detect_crop activity_options
  detect_crop-RoutedBy p =
      All-if (RoutedBy cfg) input.skip_crop_detection _ _ (λ e. tt) (λ e. ((refl, refl), tt))

  cleanup-RoutedBy :
      (t : TranscodeOutput) (n : NotifyOutput)
      → All (RoutedBy cfg) (call_cleanup cfg answers input t n).0
  unfolding call_cleanup activity_options
  cleanup-RoutedBy t n = ((refl, refl), tt)

  valid-RoutedBy : (p : ProbeOutput) → All (RoutedBy cfg) (process_valid cfg answers input p).0
  unfolding process_valid transcode_options notify_activity_options
  valid-RoutedBy p =
      All-bind (RoutedBy cfg) (call_detect_crop cfg answers input p) _ (detect_crop-RoutedBy p)
        λ c _.
          All-bind (RoutedBy cfg) (execute _ _ _ _) _ ((refl, refl), tt)
            λ t _.
              All-bind (RoutedBy cfg) (execute _ _ _ _) _ ((refl, refl), tt)
                λ n _. cleanup-RoutedBy t n

  body-RoutedBy : All (RoutedBy cfg) (media_body cfg answers input).0
  unfolding media_body activity_options
  body-RoutedBy =
      All-bind (RoutedBy cfg) (execute _ _ _ _) _ ((refl, refl), tt)
        λ p _.
          All-if (RoutedBy cfg) p.is_valid_media _ _ (λ _. valid-RoutedBy p)
            (λ _. cleanup-RoutedBy no_transcode no_notify)

  report-RoutedBy :
      (m : Flow (Unit {0}))
      → All (RoutedBy cfg) m.0
      → All (RoutedBy cfg) (report_failure cfg answers input m).0
  unfolding report_failure activity_options
  report-RoutedBy (cs, ok u) h = h
  report-RoutedBy (cs, err e) h = All-append (RoutedBy cfg) cs _ h ((refl, refl), tt)

  -- Each call goes to the queue of its own activity, with the configured attempts for the import,
  -- three for the cleanup and one for every other activity.
  media_workflow-RoutedBy : All (RoutedBy cfg) (media_workflow cfg answers input).0
  unfolding media_workflow
  media_workflow-RoutedBy = report-RoutedBy (media_body cfg answers input) body-RoutedBy
