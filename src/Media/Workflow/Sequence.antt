-- ===== src/Media/Workflow/Sequence.antt =====
-- workflows/media/workflow.go: in what order the workflow calls its activities.
use media_processor.Prelude.{
  ℕ, ◌+◌, ◌≤◌, Bool, true, false, List, [], ◌∷◌, ◌++◌, arith, if◌then◌else◌,
}
use media_processor.Media.Types.{MediaInput, ProbeOutput}
use media_processor.Media.Workflow.{
  ActivityName, probe, detect_crop, transcode, notify, cleanup, notify_failure, WorkflowConfig, ok,
  err, Call, Answers, Flow, ◌>>=◌, execute, call_detect_crop, process_valid, media_body,
  report_failure, media_workflow,
}

-- The place of an activity in the workflow.
abbrev pub rank : ActivityName → ℕ
rank probe = 0
rank detect_crop = 1
rank transcode = 2
rank notify = 3
rank cleanup = 4
rank notify_failure = 5

-- The places of the calls rise, from `k` at the least and below `n`.
abbrev pub Rising : ℕ → ℕ → List Call → Type 0
Rising k n [] = k ≤ n
Rising k n (c ∷ cs) = (k ≤ rank c.name) × Rising (rank c.name + 1) n cs

-- A call list whose start is lower still rises.
Rising-lower : (j k n : ℕ) (cs : List Call) → j ≤ k → Rising k n cs → Rising j n cs
Rising-lower j k n [] h a = omega arith
Rising-lower j k n (c ∷ cs) h a = (omega arith, a.1)

Rising-append :
    (k m n : ℕ) (cs ds : List Call) → Rising k m cs → Rising m n ds → Rising k n (cs ++ ds)
Rising-append k m n [] ds a b = Rising-lower k m n ds a b
Rising-append k m n (c ∷ cs) ds a b = (a.0, Rising-append (rank c.name + 1) m n cs ds a.1 b)

Rising-wider : (k m n : ℕ) (cs : List Call) → m ≤ n → Rising k m cs → Rising k n cs
Rising-wider k m n [] h a = omega arith
Rising-wider k m n (c ∷ cs) h a = (a.0, Rising-wider (rank c.name + 1) m n cs h a.1)

Rising-bind :
    {A B : Type 0} (k m n : ℕ) (s : Flow A) (f : A → Flow B)
    → m ≤ n
    → Rising k m s.0
    → ((a : A) → Rising m n (f a).0)
    → Rising k n (s >>= f).0
Rising-bind k m n (cs, ok a) f h r g = Rising-append k m n cs (f a).0 r (g a)
Rising-bind k m n (cs, err e) f h r g = Rising-wider k m n cs h r

Rising-if :
    {A : Type 0} (k n : ℕ) (b : Bool) (s t : Flow A)
    → Rising k n s.0
    → Rising k n t.0
    → Rising k n (if b then s else t).0
Rising-if k n true s t h g = h
Rising-if k n false s t h g = g

pub Rising-le : (k n : ℕ) (cs : List Call) → Rising k n cs → k ≤ n
Rising-le k n [] r = r
Rising-le k n (c ∷ cs) r = omega (arith, Rising-le (rank c.name + 1) n cs r.1)

module _ (cfg : WorkflowConfig) (answers : Answers) (input : MediaInput) where
  detect_crop-Rising : (p : ProbeOutput) → Rising 1 2 (call_detect_crop cfg answers input p).0
  unfolding call_detect_crop
  detect_crop-Rising p = Rising-if 1 2 input.skip_crop_detection _ _ (omega arith) (omega arith)

  valid-Rising : (p : ProbeOutput) → Rising 1 5 (process_valid cfg answers input p).0
  unfolding process_valid
  valid-Rising p =
      Rising-bind 1 2 5 (call_detect_crop cfg answers input p) _ (omega arith)
        (detect_crop-Rising p)
        λ c.
          Rising-bind 2 3 5 (execute _ _ _ _) _ (omega arith) (omega arith)
            λ t. Rising-bind 3 4 5 (execute _ _ _ _) _ (omega arith) (omega arith) λ n. omega arith

  pub body-Rising : Rising 0 5 (media_body cfg answers input).0
  unfolding media_body
  body-Rising =
      Rising-bind 0 1 5 (execute _ _ _ _) _ (omega arith) (omega arith)
        λ p. Rising-if 1 5 p.is_valid_media _ _ (valid-Rising p) (omega arith)

  report-Rising :
      (m : Flow (Unit {0})) → Rising 0 5 m.0 → Rising 0 6 (report_failure cfg answers input m).0
  unfolding report_failure
  report-Rising (cs, ok u) h = Rising-wider 0 5 6 cs (omega arith) h
  report-Rising (cs, err e) h = Rising-append 0 5 6 cs _ h (omega arith)

  -- Whatever the activities answer, the workflow calls each at most once, in the order probe,
  -- detect-crop, transcode, notify, cleanup, notify-failure.
  pub media_workflow-Rising : Rising 0 6 (media_workflow cfg answers input).0
  unfolding media_workflow
  media_workflow-Rising = report-Rising (media_body cfg answers input) body-Rising
