-- ===== src/Media/Workflow/Failure.antt =====
-- workflows/media/workflow.go: what the failure webhook is told.
use media_processor.Prelude.{
  ℕ, ◌+◌, ◌≡◌, refl, Bool, true, false, List, [], ◌∷◌, ◌++◌, Option, none, some, arith,
  if◌then◌else◌,
}
use media_processor.Media.Types.{MediaInput, ProbeOutput, CropParams, TranscodeOutput, NotifyOutput}
use media_processor.Media.Workflow.{
  ActivityName, probe, detect_crop, transcode, notify, cleanup, notify_failure, WorkflowConfig,
  ActivityOptions, Result, ok, err, Argument, failure_argument, Call, Answers, Flow, ◌>>=◌, execute,
  call_cleanup, call_detect_crop, process_valid, media_body, report_failure, media_workflow,
  no_transcode, no_notify,
}
use media_processor.Media.Workflow.Sequence.{rank, Rising, Rising-le, body-Rising}

-- The last call, by its activity.
abbrev pub last_name : List Call → Option ActivityName
last_name [] = none
last_name (c ∷ []) = some c.name
last_name (c ∷ d ∷ ds) = last_name (d ∷ ds)

-- An error names the activity that answered it, as Temporal's ActivityError does.
abbrev pub Names : {A : Type 0} → ActivityName → Result A → Type 0
Names name (ok a) = Unit
Names name (err e) = e.activity ≡ some name

-- Every answer that is an error names its activity.
pub record NamesErrors (answers : Answers) : Type 0 where
  pub probe_named : (i : MediaInput) → Names probe (answers.on_probe i)
  pub detect_crop_named :
      (i : MediaInput) (p : ProbeOutput) → Names detect_crop (answers.on_detect_crop i p)
  pub transcode_named :
      (i : MediaInput) (p : ProbeOutput) (c : Option CropParams)
      → Names transcode (answers.on_transcode i p c)
  pub notify_named : (i : MediaInput) (t : TranscodeOutput) → Names notify (answers.on_notify i t)
  pub cleanup_named :
      (i : MediaInput) (t : TranscodeOutput) (n : NotifyOutput)
      → Names cleanup (answers.on_cleanup i t n)

-- A flow that ended in an error ended at the activity that the error names.
Blames : {A : Type 0} → Flow A → Type 0
Blames (cs, ok a) = Unit
Blames (cs, err e) = (n : ActivityName) × (last_name cs ≡ some n) × (e.activity ≡ some n)

last_name-append :
    (cs ds : List Call) (n : ActivityName) → last_name ds ≡ some n → last_name (cs ++ ds) ≡ some n
last_name-append [] ds n h = h
last_name-append (c ∷ []) [] n h = cc
last_name-append (c ∷ []) (d ∷ ds) n h = h
last_name-append (c ∷ c' ∷ cs) ds n h = last_name-append (c' ∷ cs) ds n h

Blames-bind :
    {A B : Type 0} (s : Flow A) (f : A → Flow B)
    → Blames s
    → ((a : A) → Blames (f a))
    → Blames (s >>= f)
unfolding Blames
Blames-bind {B} (cs, ok a) f h g = go (f a) (g a)
  where
    go : (t : Flow B) → Blames t → Blames (cs ++ t.0, t.1)
    go (ds, ok b) k = tt
    go (ds, err e) (n, l, m) = (n, last_name-append cs ds n l, m)
Blames-bind (cs, err e) f h g = h

Blames-ok : {A : Type 0} (cs : List Call) (a : A) → Blames (cs, ok a)
unfolding Blames
Blames-ok cs a = tt

Blames-if :
    {A : Type 0} (b : Bool) (s t : Flow A) → Blames s → Blames t → Blames (if b then s else t)
Blames-if true s t h g = h
Blames-if false s t h g = g

Blames-execute :
    {A : Type 0} (name : ActivityName) (o : ActivityOptions) (x : Argument) (answer : Result A)
    → Names name answer
    → Blames (execute name o x answer)
unfolding execute Blames
Blames-execute name o x (ok a) h = tt
Blames-execute name o x (err e) h = (name, refl, h)

module _ (cfg : WorkflowConfig) (answers : Answers) (input : MediaInput) where
  detect_crop-Blames :
      (p : ProbeOutput) → NamesErrors answers → Blames (call_detect_crop cfg answers input p)
  unfolding call_detect_crop
  detect_crop-Blames p h =
      Blames-if input.skip_crop_detection _ _ (Blames-ok [] none)
        (Blames-execute _ _ _ _ (h.detect_crop_named input p))

  cleanup-Blames :
      (t : TranscodeOutput) (n : NotifyOutput)
      → NamesErrors answers
      → Blames (call_cleanup cfg answers input t n)
  unfolding call_cleanup
  cleanup-Blames t n h = Blames-execute _ _ _ _ (h.cleanup_named input t n)

  valid-Blames :
      (p : ProbeOutput) → NamesErrors answers → Blames (process_valid cfg answers input p)
  unfolding process_valid
  valid-Blames p h =
      Blames-bind (call_detect_crop cfg answers input p) _ (detect_crop-Blames p h) λ c.
        Blames-bind (execute _ _ _ _) _ (Blames-execute _ _ _ _ (h.transcode_named input p c)) λ t.
          Blames-bind (execute _ _ _ _) _ (Blames-execute _ _ _ _ (h.notify_named input t))
            λ n. cleanup-Blames t n h

  body-Blames : NamesErrors answers → Blames (media_body cfg answers input)
  unfolding media_body
  body-Blames h =
      Blames-bind (execute _ _ _ _) _ (Blames-execute _ _ _ _ (h.probe_named input)) λ p.
        Blames-if p.is_valid_media _ _ (valid-Blames p h) (cleanup-Blames no_transcode no_notify h)

-- What the failure webhook was told, each time it was called.
abbrev pub reported : List Call → List Argument
reported [] = []
reported (c ∷ cs) =
    let rest = reported cs in
    let a = c.argument in elim c.name [ notify_failure ↦ a ∷ rest | _ ↦ rest ]

reported-Rising : (k : ℕ) (cs : List Call) → Rising k 5 cs → reported cs ≡ []
reported-Rising k [] r = refl
reported-Rising k (c ∷ cs) r =
    ground (arith, reported-Rising (rank c.name + 1) cs r.1, Rising-le (rank c.name + 1) 5 cs r.1)

reported-append : (cs ds : List Call) → reported (cs ++ ds) ≡ reported cs ++ reported ds
reported-append [] ds = refl
reported-append (c ∷ cs) ds = ground (arith, reported-append cs ds)

-- What the webhook should have been told of how the workflow's body ended.
abbrev pub Reports : Flow (Unit {0}) → List Argument → Result (Unit {0}) → Type 0
Reports (cs, ok u) told r = (told ≡ []) × (r ≡ ok u)
Reports (cs, err e) told r =
    (r ≡ err e)
    × ((n : ActivityName) × (last_name cs ≡ some n)
        × (told ≡ failure_argument (some n) e.message ∷ []))

module _ (cfg : WorkflowConfig) (answers : Answers) (input : MediaInput) where
  report-Reports :
      (m : Flow (Unit {0}))
      → Rising 0 5 m.0
      → Blames m
      → Reports m
          (reported (report_failure cfg answers input m).0)
          (report_failure cfg answers input m).1
  unfolding report_failure Blames
  report-Reports (cs, ok u) r b = (reported-Rising 0 cs r, refl)
  report-Reports (cs, err e) r (n, l, k) =
      (refl, (n, l, rw (reported-append cs _, reported-Rising 0 cs r, k)))

  -- If the activities' errors name them, the failure webhook is called exactly when the workflow
  -- fails, once, with the error's message and with the step that failed, the last activity called.
  pub media_workflow-Reports :
      NamesErrors answers
      → Reports
          (media_body cfg answers input)
          (reported (media_workflow cfg answers input).0)
          (media_workflow cfg answers input).1
  unfolding media_workflow
  media_workflow-Reports h =
      report-Reports (media_body cfg answers input) (body-Rising cfg answers input)
        (body-Blames cfg answers input h)
