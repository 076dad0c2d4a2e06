-- ===== src/Ffmpeg/Audio/Resampling.antt =====
-- What the resampler is to make of decoded frames (`resampleFrame` of pkg/ffmpeg/stream_audio.go).
use mathlib.Core.List.{append_assoc}
use media_processor.Prelude.{
  ◌≡◌, refl, inl, inr, List, [], ◌∷◌, ◌++◌, Option, none, some, arith, Option-cases,
}
use media_processor.Ffmpeg.Audio.{
  Frame, AudioFifo, Resampler, Resampled, Converted, converted, input_changed, no_output,
  convert_error, convert_again, Encoder, resample_frame,
}

module _ {S : Type 0} (fifo : AudioFifo S) (resampler : Resampler S) (encoder : Encoder S) where
  open resampler use {Context, fresh, convert}

  -- Samples that the resampler answers; any other answer is an error.
  abbrev accepted : Converted S Context → Resampled S Context
  accepted (converted xs c) = some (xs, some c)
  accepted input_changed = none
  accepted no_output = none
  accepted convert_error = none

  abbrev accepted_by : Frame S → Option Context → Resampled S Context
  accepted_by f none = none
  accepted_by f (some c) = accepted (convert f c)

  -- The answer for a frame, or that of a retry if the format of the frames has changed.
  abbrev retried : Resampled S Context → Converted S Context → Resampled S Context
  retried retry (converted xs c) = some (xs, some c)
  retried retry input_changed = retry
  retried retry no_output = none
  retried retry convert_error = none

  -- What is to become of one frame: without a resampler its own samples; with one, what it answers,
  -- or a new one if the format of the frames has changed, which drops what the old one still held.
  abbrev pub frame_audio : Frame S → Option Context → Resampled S Context
  frame_audio f none = some (f.samples, none)
  frame_audio f (some c) = retried (accepted_by f fresh) (convert f c)

  pub resample_frame_lem :
      (f : Frame S) (r : Option Context)
      → resample_frame fifo resampler encoder f r ≡ frame_audio f r
  unfolding resample_frame convert_again
  resample_frame_lem f none = refl
  resample_frame_lem f (some c) = ground (arith, Option-cases fresh)

  -- The samples of frames after the resampling, with the resampler then.
  unfoldable pub resampled : List (Frame S) → Option Context → List S × Option Context
  resampled [] r = ([], r)
  resampled (f ∷ fs) r = elim (frame_audio f r) [
    | none ↦ resampled fs r
    | some (xs, r') ↦ (xs ++ (resampled fs r').0, (resampled fs r').1)
  ]

  resampled-cons :
      (xs : List S) (fs gs : List (Frame S)) (r : Option Context)
      → resampled (fs ++ gs) r ≡ (
        (resampled fs r).0 ++ (resampled gs (resampled fs r).1).0,
        (resampled gs (resampled fs r).1).1,
      )
      → ◌≡◌ {A = List S × Option Context}
          (xs ++ (resampled (fs ++ gs) r).0, (resampled (fs ++ gs) r).1)
          (
            (xs ++ (resampled fs r).0) ++ (resampled gs (resampled fs r).1).0,
            (resampled gs (resampled fs r).1).1,
          )
  resampled-cons xs fs gs r h =
      rw (h, append_assoc xs (resampled fs r).0 (resampled gs (resampled fs r).1).0) refl

  pub resampled-append :
      (fs gs : List (Frame S)) (r : Option Context)
      → resampled (fs ++ gs) r ≡ (
        (resampled fs r).0 ++ (resampled gs (resampled fs r).1).0,
        (resampled gs (resampled fs r).1).1,
      )
  unfolding resampled
  resampled-append [] gs r = refl
  resampled-append (f ∷ fs) gs r = elim (Option-cases (frame_audio f r)) [
    | inl e ↦ rw (e, resampled) (resampled-append fs gs r)
    | inr ((xs, r'), e) ↦ rw (e, resampled) (resampled-cons xs fs gs r' (resampled-append fs gs r'))
  ]
