-- ===== src/Ffmpeg/Audio/Flush.antt =====
-- The end of an audio stream: what is left in the resampler and in the FIFO, and the last frame.
use mathlib.Core.List.{append-nil, append_assoc}
use mathlib.Core.Path.{subst}
use media_processor.Prelude.{
  ℕ, ◌-◌, ◌≤◌, ◌<◌, ◌≡◌, refl, sym, ap, ◌∙◌, inl, inr, List, [], ◌∷◌, ◌++◌, Option, none, some,
  arith, ◌==◌, length, length-append, replicate, length-replicate, Bool-cases, Option-cases,
}
use media_processor.Prelude.Int.{ℤ, pos, ◌+ℤ◌}
use media_processor.Ffmpeg.Int64.{wrap}
use media_processor.Ffmpeg.Audio.{
  Frame, AudioFifo, Resampler, Encoder, AudioError, fifo_error, frame_error, Outcome, going,
  stopped, out_of_fuel, State, Converted, converted, input_changed, no_output, convert_error,
  send_frame, take_left_over, flush_resampler, send_tail,
}
use media_processor.Ffmpeg.Audio.Chunks.{HoldsSome, Paced, joined, HoldsSome-more}
use media_processor.Ffmpeg.Audio.Timeline.{IsReady}

module _ {S : Type 0} (fifo : AudioFifo S) (resampler : Resampler S) (encoder : Encoder S) where
  open fifo use {Queue, contents, size, write, read, size_lem, write_lem, read_lem, length-read}
  open resampler use {Context, drain}
  open encoder use {writable, takes, writes, finishes}

  -- The samples of an answer.
  abbrev pub samples_of : Converted S Context → List S
  samples_of (converted xs c) = xs
  samples_of input_changed = []
  samples_of no_output = []
  samples_of convert_error = []

  -- The samples that the resampler still holds.
  abbrev pub left_over : Option Context → List S
  left_over none = []
  left_over (some c) = samples_of (drain c)

  -- The frames and the FIFO hold the samples `xs` in order and in time.
  abbrev pub Filled : ℕ → ℤ → List S → Outcome (State fifo resampler encoder) → Type 0
  Filled n p xs (going s) = (joined s.sent ++ contents s.fifo ≡ xs) × Paced n p s.sent s.next_pts
  Filled n p xs (stopped s e) = HoldsSome fifo resampler encoder n p xs s
  Filled n p xs out_of_fuel = ⊥

  pub IsReady-Filled :
      (rescale : ℤ → ℤ) (n : ℕ) (p : ℤ) (xs : List S) (r : Option Context)
      (s : State fifo resampler encoder)
      → IsReady fifo resampler encoder rescale n p xs r [] s
      → Filled n p xs (going s) × (s.resample_context ≡ r)
  IsReady-Filled rescale n p xs r s (inl h) = ((h.0, h.1), h.3)
  IsReady-Filled rescale n p xs r s (inr h) = (
    (
      ap (λ t. joined t ++ contents s.fifo) h.1 ∙ h.2 ∙ sym h.0,
      subst (λ t. Paced n p t s.next_pts) (sym h.1) (h.3 ∙ sym h.6),
    ),
    h.5,
  )

  take_left_over-Filled :
      (n : ℕ) (p : ℤ) (xs : List S) (v : Converted S Context) (s : State fifo resampler encoder)
      → Filled n p xs (going s)
      → Filled n p (xs ++ samples_of v) (take_left_over fifo resampler encoder v s)
  unfolding take_left_over
  take_left_over-Filled n p xs (converted [] c) s h = rw (append-nil xs) h
  take_left_over-Filled n p xs (converted (x ∷ ys) c) s h =
      elim (Option-cases (write (x ∷ ys) s.fifo)) [
        | inl e ↦
            rw (e, take_left_over)
              (HoldsSome-more fifo resampler encoder n p xs (x ∷ ys) s
                (contents s.fifo, s.next_pts, h.0, h.1))
        | inr (q, e) ↦
            rw (e, take_left_over)
              (
                ap (λ t. joined s.sent ++ t) (write_lem (x ∷ ys) s.fifo q e)
                    ∙ sym (append_assoc (joined s.sent) (contents s.fifo) (x ∷ ys))
                    ∙ ap (λ t. t ++ x ∷ ys) h.0,
                h.1,
              )
      ]
  take_left_over-Filled n p xs input_changed s h =
      rw (append-nil xs) (contents s.fifo, s.next_pts, h.0, h.1)
  take_left_over-Filled n p xs no_output s h = rw (append-nil xs) h
  take_left_over-Filled n p xs convert_error s h =
      rw (append-nil xs) (contents s.fifo, s.next_pts, h.0, h.1)

  pub flush_resampler-Filled :
      (n : ℕ) (p : ℤ) (xs : List S) (r : Option Context) (s : State fifo resampler encoder)
      → Filled n p xs (going s)
      → s.resample_context ≡ r
      → Filled n p (xs ++ left_over r) (flush_resampler fifo resampler encoder s)
  unfolding flush_resampler
  flush_resampler-Filled n p xs none s h same = rw (same, flush_resampler, append-nil xs) h
  flush_resampler-Filled n p xs (some c) s h same =
      rw (same, flush_resampler) (take_left_over-Filled n p xs (drain c) s h)

  -- The frames that were sent are full, follow each other in time, and hold the samples `xs` in order,
  -- with less than a frame of silence behind them; if the stream was stopped, the first of these.
  abbrev pub IsDelivered : ℕ → ℤ → List S → S → Outcome (State fifo resampler encoder) → Type 0
  IsDelivered n p xs silence (going s) =
      (k : ℕ) × (q : ℤ) × (k < n) × (joined s.sent ≡ xs ++ replicate k silence) × Paced n p s.sent q
  IsDelivered n p xs silence (stopped s e) =
      (k : ℕ) × (k < n) × HoldsSome fifo resampler encoder n p (xs ++ replicate k silence) s
  IsDelivered n p xs silence out_of_fuel = ⊥

  -- A frame that completes the samples `xs` and `k` of silence.
  send_last :
      (n k : ℕ) (p : ℤ) (xs ys : List S) (silence : S) (q : Queue)
      (s : State fifo resampler encoder)
      → k < n
      → (joined s.sent ++ ys ≡ xs)
      → Paced n p s.sent s.next_pts
      → length (ys ++ replicate k silence) ≡ n
      → IsDelivered n p xs silence (
          send_frame fifo resampler encoder
            (record { pts = s.next_pts; samples = ys ++ replicate k silence })
            (record s { fifo = q }))
  unfolding send_frame
  send_last n k p xs ys silence q s lt whole paced full =
      let f : Frame S = record { pts = s.next_pts; samples = ys ++ replicate k silence } in
      let all : joined s.sent ++ f.samples ≡ xs ++ replicate k silence =
        sym (append_assoc (joined s.sent) ys (replicate k silence))
        ∙ ap (λ t. t ++ replicate k silence) whole in
      elim (Bool-cases (takes s.sent f)) [
        | inl t ↦ elim (Bool-cases (writes (f ∷ s.sent))) [
          | inl w ↦ rw (t, w) (k, wrap (s.next_pts +ℤ pos n), lt, all, (refl, full, paced))
          | inr w ↦
              rw (t, w)
                (k, lt, ([], wrap (s.next_pts +ℤ pos n), append-nil _ ∙ all, (refl, full, paced)))
        ]
        | inr t ↦ rw t (k, lt, (f.samples, s.next_pts, all, paced))
      ]

  nil_of_length : (xs : List S) → length xs ≡ 0 → xs ≡ []
  nil_of_length [] h = refl
  nil_of_length (x ∷ xs) h = absurd (omega (arith, h))

  pub Filled-IsDelivered :
      (n : ℕ) (p : ℤ) (xs : List S) (silence : S) (e : AudioError)
      (s : State fifo resampler encoder)
      → 1 ≤ n
      → HoldsSome fifo resampler encoder n p xs s
      → IsDelivered n p xs silence (stopped s e)
  Filled-IsDelivered n p xs silence e s pos_n h =
      (0, omega arith, HoldsSome-more fifo resampler encoder n p xs [] s h)

  pub send_tail-IsDelivered :
      (n : ℕ) (p : ℤ) (xs : List S) (silence : S) (s : State fifo resampler encoder)
      → size s.fifo < n
      → Filled n p xs (going s)
      → IsDelivered n p xs silence (send_tail fifo resampler encoder silence n s)
  unfolding send_tail
  send_tail-IsDelivered n p xs silence s lt h = elim (Bool-cases (size s.fifo == 0)) [
    | inl none_left ↦
        let empty : contents s.fifo ≡ [] =
          nil_of_length _ (sym (size_lem s.fifo) ∙ (ground arith)) in
        rw none_left (
          0,
          s.next_pts,
          omega arith,
          sym (append-nil (joined s.sent))
              ∙ ap (λ t. joined s.sent ++ t) (sym empty)
              ∙ h.0
              ∙ sym (append-nil xs),
          h.1,
        )
    | inr some_left ↦ elim (Bool-cases (writable s.sent)) [
      | inl w ↦ elim (Option-cases (read (size s.fifo) s.fifo)) [
        | inl e ↦
            rw (some_left, w, e)
              (Filled-IsDelivered n p xs silence fifo_error s (omega arith)
                (contents s.fifo, s.next_pts, h.0, h.1))
        | inr ((ys, q), e) ↦
            let parts = read_lem (size s.fifo) s.fifo q ys e in
            let all_read = length-read (size s.fifo) s.fifo q ys (omega arith) e in
            let empty : contents q ≡ [] = nil_of_length (contents q) (
              omega (
                arith,
                ap length parts,
                length-append ys (contents q),
                all_read,
                size_lem s.fifo,
              )) in
            let same : contents s.fifo ≡ ys = parts ∙ ap (λ t. ys ++ t) empty ∙ append-nil ys in
            let not_none : 1 ≤ size s.fifo = ground arith in
            rw (some_left, w, e)
              (send_last n (n - size s.fifo) p xs ys silence q s (omega arith)
                (ap (λ t. joined s.sent ++ t) (sym same) ∙ h.0) h.1
                (omega (
                  arith,
                  length-append ys (replicate (n - size s.fifo) silence),
                  length-replicate (n - size s.fifo) silence,
                  all_read,
                )))
      ]
      | inr w ↦
          rw (some_left, w)
            (Filled-IsDelivered n p xs silence frame_error s (omega arith)
              (contents s.fifo, s.next_pts, h.0, h.1))
    ]
  ]
