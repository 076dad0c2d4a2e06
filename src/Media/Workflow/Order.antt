-- ===== src/Media/Workflow/Order.antt =====
-- workflows/media/workflow.go: which calls the workflow makes, on what grounds, in what order.
use media_processor.Prelude.{
  ◌≡◌, refl, ◌⊎◌, inl, inr, Bool, true, false, List, [], ◌∷◌, ◌++◌, Option, none, arith,
  if◌then◌else◌,
}
use media_processor.Media.Types.{MediaInput, ProbeOutput, CropParams, TranscodeOutput}
use media_processor.Media.Workflow.{
  WorkflowConfig, ok, err, Argument, probe_argument, detect_crop_argument, transcode_argument,
  notify_argument, cleanup_argument, failure_argument, Call, Answers, Flow, ◌>>=◌, execute,
  no_transcode, no_notify, call_cleanup, call_detect_crop, process_valid, media_body,
  report_failure, media_workflow,
}

abbrev pub All {ℓ} : {A : Type ℓ} → (A → Type 0) → List A → Type 0
All P [] = Unit
All P (x ∷ xs) = P x × All P xs

pub All-append : (P : Call → Type 0) (cs ds : List Call) → All P cs → All P ds → All P (cs ++ ds)
All-append P [] ds a b = b
All-append P (c ∷ cs) ds a b = (a.0, All-append P cs ds a.1 b)

pub All-bind :
    {A B : Type 0} (P : Call → Type 0) (m : Flow A) (f : A → Flow B)
    → All P m.0
    → ((a : A) → m.1 ≡ ok a → All P (f a).0)
    → All P (m >>= f).0
All-bind P (cs, ok a) f h k = All-append P cs (f a).0 h (k a refl)
All-bind P (cs, err e) f h k = h

pub All-if :
    {A : Type 0} (P : Call → Type 0) (b : Bool) (m n : Flow A)
    → (b ≡ true → All P m.0)
    → (b ≡ false → All P n.0)
    → All P (if b then m else n).0
All-if P true m n h k = h refl
All-if P false m n h k = k refl

module _ (answers : Answers) (input : MediaInput) where
  -- The crop that a valid file is transcoded with.
  abbrev pub CropOf : ProbeOutput → Option CropParams → Type 0
  CropOf p c =
      ((input.skip_crop_detection ≡ true) × (c ≡ none))
      ⊎ ((input.skip_crop_detection ≡ false) × (answers.on_detect_crop input p ≡ ok c))

  abbrev pub ValidProbe : ProbeOutput → Type 0
  ValidProbe p = (answers.on_probe input ≡ ok p) × (p.is_valid_media ≡ true)

  abbrev pub TranscodeOf : TranscodeOutput → Type 0
  TranscodeOf t =
      (p : ProbeOutput) × (c : Option CropParams) × ValidProbe p
      × CropOf p c
      × (answers.on_transcode input p c ≡ ok t)

  -- What must have been answered before a call with this argument is made.
  abbrev pub Grounds : Argument → Type 0
  Grounds probe_argument = Unit
  Grounds (detect_crop_argument p) = ValidProbe p × (input.skip_crop_detection ≡ false)
  Grounds (transcode_argument p c) = ValidProbe p × CropOf p c
  Grounds (notify_argument t) = TranscodeOf t
  Grounds (cleanup_argument t n) =
      ((p : ProbeOutput) × (answers.on_probe input ≡ ok p)
        × (p.is_valid_media ≡ false)
        × (t ≡ no_transcode)
        × (n ≡ no_notify))
      ⊎ (TranscodeOf t × (answers.on_notify input t ≡ ok n))
  Grounds (failure_argument step message) = Unit

module _ (cfg : WorkflowConfig) (answers : Answers) (input : MediaInput) where
  abbrev HasGrounds : Call → Type 0
  HasGrounds c = Grounds answers input c.argument

  detect_crop-grounds :
      (p : ProbeOutput)
      → ValidProbe answers input p
      → All HasGrounds (call_detect_crop cfg answers input p).0
  unfolding call_detect_crop
  detect_crop-grounds p v =
      All-if HasGrounds input.skip_crop_detection _ _ (λ e. tt) (λ e. ((v, e), tt))

  detect_crop-CropOf :
      (p : ProbeOutput) (c : Option CropParams)
      → (call_detect_crop cfg answers input p).1 ≡ ok c
      → CropOf answers input p c
  unfolding call_detect_crop
  detect_crop-CropOf p c h = ground arith

  process_valid-grounds :
      (p : ProbeOutput)
      → ValidProbe answers input p
      → All HasGrounds (process_valid cfg answers input p).0
  unfolding process_valid
  process_valid-grounds p v =
      All-bind HasGrounds (call_detect_crop cfg answers input p) _ (detect_crop-grounds p v) λ c ec.
        let crop = detect_crop-CropOf p c ec in
        All-bind HasGrounds (execute _ _ _ _) _ ((v, crop), tt)
          λ t et.
            let done : TranscodeOf answers input t = (p, c, v, crop, et) in
            All-bind HasGrounds (execute _ _ _ _) _ (done, tt) λ n en. (inr (done, en), tt)

  cleanup-grounds :
      (p : ProbeOutput)
      → answers.on_probe input ≡ ok p
      → p.is_valid_media ≡ false
      → All HasGrounds (call_cleanup cfg answers input no_transcode no_notify).0
  unfolding call_cleanup
  cleanup-grounds p e invalid = (inl (p, e, invalid, refl, refl), tt)

  body-grounds : All HasGrounds (media_body cfg answers input).0
  unfolding media_body
  body-grounds =
      All-bind HasGrounds (execute _ _ _ _) _ (tt, tt)
        λ p e.
          All-if HasGrounds p.is_valid_media _ _ (λ v. process_valid-grounds p (e, v))
            (λ v. cleanup-grounds p e v)

  report-grounds :
      (m : Flow (Unit {0}))
      → All HasGrounds m.0
      → All HasGrounds (report_failure cfg answers input m).0
  unfolding report_failure
  report-grounds (cs, ok u) h = h
  report-grounds (cs, err e) h = All-append HasGrounds cs _ h (tt, tt)

  -- Every call that the workflow makes is made on what the calls before it answered: a transcode on
  -- a valid probe and on the crop detected for it, or none where the watch disables detection; the
  -- import on that transcode; and the cleanup, which deletes the source, only on a finished import
  -- of that transcode, or on a probe that found no media, then with nothing transcoded.
  pub media_workflow-grounds : All HasGrounds (media_workflow cfg answers input).0
  unfolding media_workflow
  media_workflow-grounds = report-grounds (media_body cfg answers input) body-grounds
