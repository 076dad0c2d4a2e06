-- ===== src/Ffmpeg/CropDetect/Detection.antt =====
-- What a detection returns, and when it stops early.
use media_processor.Prelude.{
  ◌+◌, ◌≡◌, refl, sym, ap, ◌∙◌, ◌⊎◌, inl, inr, List, [], ◌∷◌, ◌++◌, Option, none, some, Bool-cases,
  leb,
}
use mathlib.Core.List.{append_assoc}
use media_processor.Media.Types.{CropParams}
use media_processor.Ffmpeg.CropDetect.{
  stability_threshold, Metadata, parse_crop_metadata, flush, eof, CropError, Libav, State, start,
  converged, failed, Run, halt_of, is_same, read_crop, read_output, drain_outputs, drain_filter,
  push, send_packet, read_packets, no_metadata, aborted, Detection, settle, result_of,
  finish_filter, run_cropdetect_loop,
}
use media_processor.Ffmpeg.CropDetect.Readings.{
  Log, crops_of, latest, readings, put_out, IsStable, IsPositive, AllPositive, Tracked,
}
use media_processor.Ffmpeg.CropDetect.Steps.{
  push-Tracked, drain_filter-Keeps, send_packet-Keeps, read_packets-Keeps,
}
use media_processor.Ffmpeg.CropDetect.Tracking.{
  read_phase1, read_other, read_last, read_same, HaltsWell, Keeps,
}

-- A crop is the latest reading of the log, of positive size; the log is what the filter put out, or
-- leaves out what came after five equal readings. No metadata means that the filter read nothing.
abbrev pub IsDetected : Libav → Detection → Type 0
IsDetected v (s, inl (aborted e)) = Unit {0}
IsDetected v (s, inl no_metadata) = readings (put_out v [] s.pushes) ≡ []
IsDetected v (s, inr c) =
    IsPositive c
    × ((before : List CropParams) × (later : List CropParams) × (readings (put_out v [] s.pushes)
          ≡ before ++ c ∷ later)
        × ((later ≡ []) ⊎ IsStable stability_threshold s.log))
    × (latest s.log ≡ some c)

settle-IsDetected :
    (v : Libav) (r : Run) (rest : State → Detection)
    → Keeps v r
    → ((s : State) → Tracked v s → IsDetected v (rest s))
    → IsDetected v (settle r rest)
unfolding settle
settle-IsDetected v (s, none) rest k next = next s k.0
settle-IsDetected v (s, some converged) rest k next = next s k.0
settle-IsDetected v (s, some (failed e)) rest k next = tt

log_result :
    (v : Libav) (s : State) (l : Log) (later : List CropParams)
    → s.log ≡ l
    → Tracked v s
    → (readings s.outputs ≡ later)
    → (later ≡ []) ⊎ IsStable stability_threshold l
    → IsDetected v (s, result_of (latest l))
unfolding result_of
log_result v s [] later e t f (inl g) =
    sym t.linked ∙ ap (λ x. crops_of x ++ readings s.outputs) e ∙ f ∙ g
log_result v s [] later e t f (inr g) = absurd g
log_result v s ((n, c) ∷ l) later e t f g = (
  (let q : AllPositive ((n, c) ∷ l) = rw e at t.positive in q.0),
  (
    crops_of l,
    later,
    sym t.linked
        ∙ ap (λ x. crops_of x ++ readings s.outputs) e
        ∙ append_assoc (crops_of l) (c ∷ []) (readings s.outputs)
        ∙ ap (λ x. crops_of l ++ c ∷ x) f,
    rw e g,
  ),
  ap latest e,
)

-- A drain that was not cut short leaves no output.
abbrev Drained : Run → Type 0
Drained (s, none) = s.outputs ≡ []
Drained (s, some h) = Unit {0}

read_crop-Drained :
    (c : CropParams) (s : State) (rest : State → Run)
    → ((u : State) → Drained (rest u))
    → Drained (read_crop c s rest)
read_crop-Drained c s rest next = elim (Bool-cases s.in_phase2) [
  | inr e ↦ rw (read_phase1 c s rest e) (next _)
  | inl e ↦ elim (Bool-cases (is_same s.crop c)) [
    | inr f ↦ rw (read_other c s rest e f) (next _)
    | inl f ↦ elim (Bool-cases (leb stability_threshold (s.consecutive_stable + 1))) [
      | inl g ↦ rw (read_last c s rest e f g) tt
      | inr g ↦ rw (read_same c s rest e f g) (next _)
    ]
  ]
]

drain_outputs-Drained :
    (e : Option CropError) (os : List (Option Metadata)) (s : State)
    → Drained (drain_outputs e os s)
unfolding drain_outputs halt_of read_output
drain_outputs-Drained none [] s = refl
drain_outputs-Drained (some e) [] s = tt
drain_outputs-Drained e (o ∷ os) s =
    read (parse_crop_metadata o) (record s { outputs = os }) (drain_outputs-Drained e os)
  where
    read :
        (o : Option CropParams) (t : State)
        → ((u : State) → Drained (drain_outputs e os u))
        → Drained (read_output o t (drain_outputs e os))
    read none t next = next t
    read (some c) t next = read_crop-Drained c t (drain_outputs e os) next

finish-IsDetected :
    (v : Libav) (r : Run)
    → Keeps v r
    → Drained r
    → IsDetected v (settle r (λ t. (t, result_of t.crop)))
unfolding settle
finish-IsDetected v (s, none) (t, h) d =
    rw t.headed (log_result v s s.log [] refl t (ap readings d) (inl refl))
finish-IsDetected v (s, some converged) (t, h) d =
    rw t.headed (log_result v s s.log (readings s.outputs) refl t refl (inr h))
finish-IsDetected v (s, some (failed e)) (t, h) d = tt

finish_filter-IsDetected : (v : Libav) (s : State) → Tracked v s → IsDetected v (finish_filter v s)
unfolding finish_filter drain_filter
finish_filter-IsDetected v s t =
    finish-IsDetected v _ (drain_filter-Keeps v (push v eof s) (push-Tracked v eof s t))
      (drain_outputs-Drained _ _ _)

start-Tracked : (v : Libav) → Tracked v start
start-Tracked v = record {
  headed = refl;
  stable = tt;
  positive = tt;
  linked = refl;
  phase = inl (refl, refl);
}

-- A crop that is detected has a positive width and height and is one of the readings of the filter:
-- the last one of all that it put out for what it was given, unless five readings in a row agreed
-- with it, each taken when more than 200 frames were decoded. That there is no metadata is said only
-- if the filter put out no reading at all.
pub run_cropdetect_loop-IsDetected : (v : Libav) → IsDetected v (run_cropdetect_loop v)
unfolding run_cropdetect_loop
run_cropdetect_loop-IsDetected v =
    settle-IsDetected v (read_packets v v.packets start) _
      (read_packets-Keeps v v.packets start (start-Tracked v))
      (λ s t.
        settle-IsDetected v (send_packet v flush s) (finish_filter v)
          (send_packet-Keeps v flush s t) (finish_filter-IsDetected v))

HaltsWell-converged :
    (r : Run) → HaltsWell r → r.1 ≡ some converged → IsStable stability_threshold r.0.log
HaltsWell-converged (s, none) h e = cc
HaltsWell-converged (s, some converged) h e = h
HaltsWell-converged (s, some (failed f)) h e = cc

-- The packets are read no further, before their end or an error, only when the five latest readings
-- of the filter agree and each was taken when more than 200 frames were decoded.
pub read_packets-IsStable :
    (v : Libav)
    → (read_packets v v.packets start).1 ≡ some converged
    → IsStable stability_threshold (read_packets v v.packets start).0.log
read_packets-IsStable v e =
    HaltsWell-converged (read_packets v v.packets start)
      (read_packets-Keeps v v.packets start (start-Tracked v)).1 e
