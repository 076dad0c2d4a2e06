-- ===== src/Ffmpeg/Audio/Timeline.antt =====
-- What the frames of the decoder become on the way into the FIFO.
use mathlib.Core.List.{append-nil, append_assoc}
use mathlib.Core.Path.{subst}
use media_processor.Prelude.{
  ℕ, ◌≤◌, ◌≡◌, ◌≢◌, ◌⊎◌, refl, sym, ap, ◌∙◌, inl, inr, true, false, List, [], ◌∷◌, ◌++◌, Option,
  none, some, arith, Option-cases,
}
use media_processor.Prelude.Int.{ℤ, pos, eq_of_parts}
use media_processor.Ffmpeg.Packets.{no_pts_value}
use media_processor.Ffmpeg.Audio.{
  Frame, AudioFifo, Resampler, Encoder, Decoded, resample_error, Outcome, going, stopped,
  out_of_fuel, ◌>>=◌, State, resample_frame, seed_pts, write_fifo, encode_audio_frame,
  encode_frames,
}
use media_processor.Ffmpeg.Audio.Resampling.{
  frame_audio, resample_frame_lem, resampled, resampled-append,
}
use media_processor.Ffmpeg.Audio.Chunks.{
  Holds, HoldsSome, Drained, Paced, joined, Holds-some, write_fifo-Drained, HoldsSome-more,
}

-- The timestamp of the first frame, in the time base of the encoder.
abbrev pub first_pts : {S : Type 0} → (ℤ → ℤ) → List (Frame S) → ℤ
first_pts rescale [] = pos 0
first_pts rescale (f ∷ fs) = rescale f.pts

-- The first frame, if there is one, has a timestamp.
abbrev pub FirstHasPts : {S : Type 0} → List (Frame S) → Type 0
FirstHasPts [] = Unit
FirstHasPts (f ∷ fs) = f.pts ≢ no_pts_value

-- The frames that packets are decoded to.
abbrev pub frames_of : {S : Type 0} → List (Decoded S) → List (Frame S)
frames_of [] = []
frames_of (d ∷ ds) = d.frames ++ frames_of ds

module _ {S : Type 0} (fifo : AudioFifo S) (resampler : Resampler S) (encoder : Encoder S) where
  open fifo use {Queue, contents, size}
  open resampler use {Context}

  -- A stream before its first frame.
  abbrev IsFresh :
      (ℤ → ℤ) → ℤ → List S → Option Context → List (Frame S) → State fifo resampler encoder → Type 0
  IsFresh rescale p xs r rest s =
      (xs ≡ [])
      × (s.sent ≡ [])
      × (contents s.fifo ≡ [])
      × (s.next_pts ≡ pos 0)
      × (s.next_pts_initialized ≡ false)
      × (s.resample_context ≡ r)
      × (p ≡ first_pts rescale rest)
      × FirstHasPts rest

  -- A stream with the frames `rest` to come.
  abbrev pub IsReady :
      (ℤ → ℤ)
      → ℕ
      → ℤ
      → List S
      → Option Context
      → List (Frame S)
      → State fifo resampler encoder
      → Type 0
  IsReady rescale n p xs r rest s =
      Holds fifo resampler encoder n p xs (r, true) s ⊎ IsFresh rescale p xs r rest s

  abbrev pub Encoded :
      (ℤ → ℤ)
      → ℕ
      → ℤ
      → List S
      → Option Context
      → List (Frame S)
      → Outcome (State fifo resampler encoder)
      → Type 0
  Encoded rescale n p xs r rest (going s) = IsReady rescale n p xs r rest s
  Encoded rescale n p xs r rest (stopped s e) = HoldsSome fifo resampler encoder n p xs s
  Encoded rescale n p xs r rest out_of_fuel = ⊥

  pub IsReady-some :
      (rescale : ℤ → ℤ) (n : ℕ) (p : ℤ) (xs : List S) (r : Option Context) (rest : List (Frame S))
      (s : State fifo resampler encoder)
      → IsReady rescale n p xs r rest s
      → HoldsSome fifo resampler encoder n p xs s
  IsReady-some rescale n p xs r rest s (inl h) =
      Holds-some fifo resampler encoder n p xs (r, true) s h
  IsReady-some rescale n p xs r rest s (inr h) =
      ([], p, ap (λ t. joined t ++ []) h.1 ∙ sym h.0, subst (λ t. Paced n p t p) (sym h.1) refl)

  seed_pts-seeded :
      (rescale : ℤ → ℤ) (p : ℤ) (s : State fifo resampler encoder)
      → s.next_pts_initialized ≡ true
      → seed_pts fifo resampler encoder rescale p s ≡ s
  unfolding seed_pts
  seed_pts-seeded rescale p s h = ground arith

  seed_pts-fresh :
      (rescale : ℤ → ℤ) (p : ℤ) (s : State fifo resampler encoder)
      → s.next_pts_initialized ≡ false
      → p ≢ no_pts_value
      → seed_pts fifo resampler encoder rescale p s
        ≡ record s { next_pts = rescale p; next_pts_initialized = true }
  unfolding seed_pts
  seed_pts-fresh rescale p s h k = ground (arith, eq_of_parts p no_pts_value)

  -- Seeding starts the timeline, once.
  seeded :
      (rescale : ℤ → ℤ) (n : ℕ) (p : ℤ) (xs : List S) (r r' : Option Context) (f : Frame S)
      (rest : List (Frame S)) (s : State fifo resampler encoder)
      → IsReady rescale n p xs r (f ∷ rest) s
      → Holds fifo resampler encoder n p xs
          (r', true)
          (seed_pts fifo resampler encoder rescale f.pts (record s { resample_context = r' }))
  seeded rescale n p xs r r' f rest s (inl h) =
      rw (seed_pts-seeded rescale f.pts (record s { resample_context = r' }) h.2)
        (h.0, h.1, h.2, refl)
  seeded rescale n p xs r r' f rest s (inr h) =
      rw (seed_pts-fresh rescale f.pts (record s { resample_context = r' }) h.4 h.7) (
        ap (λ t. joined t ++ contents s.fifo) h.1 ∙ h.2 ∙ sym h.0,
        subst (λ t. Paced n p t (rescale f.pts)) (sym h.1) (sym h.6),
        refl,
        refl,
      )

  Drained-Encoded :
      (rescale : ℤ → ℤ) (n : ℕ) (p : ℤ) (xs : List S) (r : Option Context) (rest : List (Frame S))
      (P : State fifo resampler encoder → Type 0) (o : Outcome (State fifo resampler encoder))
      → Drained fifo resampler encoder n p xs (r, true) P o
      → Encoded rescale n p xs r rest o
  Drained-Encoded rescale n p xs r rest P (going s) h = inl h.0
  Drained-Encoded rescale n p xs r rest P (stopped s e) h = h
  Drained-Encoded rescale n p xs r rest P out_of_fuel h = h

  -- More samples follow, with another resampler.
  pub Encoded-bind :
      (rescale : ℤ → ℤ) (n : ℕ) (p : ℤ) (xs ys : List S) (r r' : Option Context)
      (rest rest' : List (Frame S)) (o : Outcome (State fifo resampler encoder))
      (k : State fifo resampler encoder → Outcome (State fifo resampler encoder))
      → ((s : State fifo resampler encoder)
          → IsReady rescale n p xs r rest s
          → Encoded rescale n p (xs ++ ys) r' rest' (k s))
      → Encoded rescale n p xs r rest o
      → Encoded rescale n p (xs ++ ys) r' rest' (o >>= k)
  Encoded-bind rescale n p xs ys r r' rest rest' (going s) k f h = f s h
  Encoded-bind rescale n p xs ys r r' rest rest' (stopped s e) k f h =
      HoldsSome-more fifo resampler encoder n p xs ys s h
  Encoded-bind rescale n p xs ys r r' rest rest' out_of_fuel k f h = h

  encode_audio_frame-none :
      (rescale : ℤ → ℤ) (n : ℕ) (f : Frame S) (s : State fifo resampler encoder)
      → resample_frame fifo resampler encoder f s.resample_context ≡ none
      → encode_audio_frame fifo resampler encoder rescale (some n) f s ≡ stopped s resample_error
  unfolding encode_audio_frame
  encode_audio_frame-none rescale n f s e = rw (e, encode_audio_frame) refl

  encode_audio_frame-some :
      (rescale : ℤ → ℤ) (n : ℕ) (f : Frame S) (s : State fifo resampler encoder) (xs : List S)
      (r : Option Context)
      → resample_frame fifo resampler encoder f s.resample_context ≡ some (xs, r)
      → encode_audio_frame fifo resampler encoder rescale (some n) f s
        ≡ write_fifo fifo resampler encoder n xs
            (seed_pts fifo resampler encoder rescale f.pts (record s { resample_context = r }))
  unfolding encode_audio_frame
  encode_audio_frame-some rescale n f s xs r e = rw (e, encode_audio_frame) refl

  encode_audio_frame-Encoded :
      (rescale : ℤ → ℤ) (n : ℕ) (p : ℤ) (xs : List S) (r : Option Context) (f : Frame S)
      (rest : List (Frame S)) (s : State fifo resampler encoder)
      → 1 ≤ n
      → IsReady rescale n p xs r (f ∷ rest) s
      → Encoded rescale n p
          (xs ++ (resampled fifo resampler encoder (f ∷ []) r).0)
          (resampled fifo resampler encoder (f ∷ []) r).1
          rest
          (encode_audio_frame fifo resampler encoder rescale (some n) f s)
  unfolding resampled
  encode_audio_frame-Encoded rescale n p xs r f rest s pos_n h =
      let same : s.resample_context ≡ r = elim h [ inl k ↦ k.3 | inr k ↦ k.5 ] in
      let now =
        ap (λ t. resample_frame fifo resampler encoder f t) same
        ∙ resample_frame_lem fifo resampler encoder f r in
      elim (Option-cases (frame_audio fifo resampler encoder f r)) [
        | inl e ↦
            rw (encode_audio_frame-none rescale n f s (now ∙ e), e, resampled, append-nil xs)
              (IsReady-some rescale n p xs r (f ∷ rest) s h)
        | inr ((ys, r'), e) ↦
            rw (encode_audio_frame-some rescale n f s ys r' (now ∙ e), e, resampled, append-nil ys)
              (Drained-Encoded rescale n p (xs ++ ys) r' rest _ _ (
                write_fifo-Drained fifo resampler encoder n p xs ys (r', true) _ pos_n
                  (seeded rescale n p xs r r' f rest s h)))
      ]

  pub encode_frames-Encoded :
      (rescale : ℤ → ℤ) (n : ℕ) (p : ℤ) (xs : List S) (r : Option Context)
      (fs rest : List (Frame S)) (s : State fifo resampler encoder)
      → 1 ≤ n
      → IsReady rescale n p xs r (fs ++ rest) s
      → Encoded rescale n p
          (xs ++ (resampled fifo resampler encoder fs r).0)
          (resampled fifo resampler encoder fs r).1
          rest
          (encode_frames fifo resampler encoder rescale (some n) fs s)
  unfolding encode_frames resampled
  encode_frames-Encoded rescale n p xs r [] rest s pos_n h = rw (append-nil xs) h
  encode_frames-Encoded rescale n p xs r (f ∷ fs) rest s pos_n h =
      let whole = resampled-append fifo resampler encoder (f ∷ []) fs r in
      let r' = (resampled fifo resampler encoder (f ∷ []) r).1 in
      let ys = (resampled fifo resampler encoder (f ∷ []) r).0 in
      rw (whole, sym (append_assoc xs ys (resampled fifo resampler encoder fs r').0))
        (Encoded-bind rescale n p (xs ++ ys) (resampled fifo resampler encoder fs r').0 r'
          (resampled fifo resampler encoder fs r').1 (fs ++ rest) rest _ _
          (λ s' h'. encode_frames-Encoded rescale n p (xs ++ ys) r' fs rest s' pos_n h')
          (encode_audio_frame-Encoded rescale n p xs r f (fs ++ rest) s pos_n h))
