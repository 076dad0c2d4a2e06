-- ===== src/Ffmpeg/Audio/Whole.antt =====
-- From the decoded frames of an audio stream to the frames that its encoder is sent.
use mathlib.Core.List.{append-nil, append_assoc}
use media_processor.Prelude.{
  ℕ, ◌≤◌, ◌<◌, ◌≡◌, refl, sym, ◌∙◌, inl, inr, Bool, List, [], ◌++◌, Option, some, Bool-cases,
  if◌then◌else◌,
}
use media_processor.Prelude.Int.{ℤ}
use media_processor.Ffmpeg.Audio.{
  Frame, AudioFifo, Resampler, Encoder, Decoded, packet_error, Outcome, going, stopped, out_of_fuel,
  ◌>>=◌, State, drain_all, send_tail, flush_fifo, flush, start, transcode_audio,
}
use media_processor.Ffmpeg.Audio.Chunks.{Drained, HoldsSome-more, drain_all-Drained}
use media_processor.Ffmpeg.Audio.Resampling.{resampled, resampled-append}
use media_processor.Ffmpeg.Audio.Timeline.{first_pts, FirstHasPts, frames_of, IsReady, Encoded}
use media_processor.Ffmpeg.Audio.Delivery.{process_packet-Encoded, run_packets-Encoded}
use media_processor.Ffmpeg.Audio.Flush.{
  left_over, Filled, IsReady-Filled, flush_resampler-Filled, IsDelivered, Filled-IsDelivered,
  send_tail-IsDelivered,
}

module _ {S : Type 0} (fifo : AudioFifo S) (resampler : Resampler S) (encoder : Encoder S) where
  open fifo use {Queue, contents, size}
  open resampler use {Context}
  open encoder use {finishes}

  -- The samples of all frames, resampled, with those that the resampler still holds at the end.
  abbrev pub audio_of : List (Frame S) → Option Context → List S
  audio_of fs r =
      (resampled fifo resampler encoder fs r).0
      ++ left_over fifo resampler encoder (resampled fifo resampler encoder fs r).1

  Drained-tail :
      (n : ℕ) (p : ℤ) (xs : List S) (r : Option Context × Bool) (silence : S)
      (o : Outcome (State fifo resampler encoder))
      → 1 ≤ n
      → Drained fifo resampler encoder n p xs r (λ s. size s.fifo < n) o
      → IsDelivered fifo resampler encoder n p xs silence
          (o >>= send_tail fifo resampler encoder silence n)
  Drained-tail n p xs r silence (going s) pos_n h =
      send_tail-IsDelivered fifo resampler encoder n p xs silence s h.1 (h.0.0, h.0.1)
  Drained-tail n p xs r silence (stopped s e) pos_n h =
      Filled-IsDelivered fifo resampler encoder n p xs silence e s pos_n h
  Drained-tail n p xs r silence out_of_fuel pos_n h = h

  Filled-tail :
      (n : ℕ) (p : ℤ) (xs : List S) (silence : S) (o : Outcome (State fifo resampler encoder))
      → 1 ≤ n
      → Filled fifo resampler encoder n p xs o
      → IsDelivered fifo resampler encoder n p xs silence
          (o >>= drain_all fifo resampler encoder n >>= send_tail fifo resampler encoder silence n)
  Filled-tail n p xs silence (going s) pos_n h =
      let r : Option Context × Bool = (s.resample_context, s.next_pts_initialized) in
      Drained-tail n p xs r silence _ pos_n
        (drain_all-Drained fifo resampler encoder n p xs r s pos_n (h.0, h.1, refl, refl))
  Filled-tail n p xs silence (stopped s e) pos_n h =
      Filled-IsDelivered fifo resampler encoder n p xs silence e s pos_n h
  Filled-tail n p xs silence out_of_fuel pos_n h = h

  -- The end of the encoder sends no frame.
  finish-IsDelivered :
      (n : ℕ) (p : ℤ) (xs : List S) (silence : S) (o : Outcome (State fifo resampler encoder))
      → IsDelivered fifo resampler encoder n p xs silence o
      → IsDelivered fifo resampler encoder n p xs silence
          (o >>= λ s. if finishes s.sent then going s else stopped s packet_error)
  finish-IsDelivered n p xs silence (going s) (k, q, lt, whole, paced) =
      elim (Bool-cases (finishes s.sent)) [
        | inl f ↦ rw f (k, q, lt, whole, paced)
        | inr f ↦ rw f (k, lt, ([], q, append-nil _ ∙ whole, paced))
      ]
  finish-IsDelivered n p xs silence (stopped s e) h = h
  finish-IsDelivered n p xs silence out_of_fuel h = h

  -- The rest of a stream after frames of the samples `xs`, all frames having come.
  Encoded-end :
      (rescale : ℤ → ℤ) (n : ℕ) (p : ℤ) (xs : List S) (r : Option Context) (silence : S)
      (o : Outcome (State fifo resampler encoder))
      → 1 ≤ n
      → Encoded fifo resampler encoder rescale n p xs r [] o
      → IsDelivered fifo resampler encoder n p (xs ++ left_over fifo resampler encoder r) silence (
          o >>= flush_fifo fifo resampler encoder silence (some n) >>= λ s.
          if finishes s.sent then going s else stopped s packet_error)
  unfolding flush_fifo
  Encoded-end rescale n p xs r silence (going s) pos_n h =
      let filled = IsReady-Filled fifo resampler encoder rescale n p xs r s h in
      finish-IsDelivered n p _ silence _ (
        Filled-tail n p _ silence _ pos_n
          (flush_resampler-Filled fifo resampler encoder n p xs r s filled.0 filled.1))
  Encoded-end rescale n p xs r silence (stopped s e) pos_n h =
      Filled-IsDelivered fifo resampler encoder n p _ silence e s pos_n
        (HoldsSome-more fifo resampler encoder n p xs _ s h)
  Encoded-end rescale n p xs r silence out_of_fuel pos_n h = h

  Encoded-flush :
      (rescale : ℤ → ℤ) (n : ℕ) (p : ℤ) (xs : List S) (r : Option Context) (silence : S)
      (d : Decoded S) (o : Outcome (State fifo resampler encoder))
      → 1 ≤ n
      → Encoded fifo resampler encoder rescale n p xs r d.frames o
      → IsDelivered fifo resampler encoder n p
          (xs ++ audio_of d.frames r)
          silence
          (o >>= flush fifo resampler encoder rescale silence (some n) d)
  unfolding flush
  Encoded-flush rescale n p xs r silence d (going s) pos_n h =
      rw
        (sym (
          append_assoc xs (resampled fifo resampler encoder d.frames r).0
            (left_over fifo resampler encoder (resampled fifo resampler encoder d.frames r).1)))
        (Encoded-end rescale n p _ _ silence _ pos_n (
          process_packet-Encoded fifo resampler encoder rescale n p xs r d [] s pos_n
            (rw (append-nil d.frames) h)))
  Encoded-flush rescale n p xs r silence d (stopped s e) pos_n h =
      Filled-IsDelivered fifo resampler encoder n p _ silence e s pos_n
        (HoldsSome-more fifo resampler encoder n p xs _ s h)
  Encoded-flush rescale n p xs r silence d out_of_fuel pos_n h = h

  start-IsReady :
      (rescale : ℤ → ℤ) (n : ℕ) (q : Queue) (r : Option Context) (fs : List (Frame S))
      → contents q ≡ []
      → FirstHasPts fs
      → IsReady fifo resampler encoder rescale n
          (first_pts rescale fs)
          []
          r
          fs
          (start fifo resampler encoder q r)
  unfolding start
  start-IsReady rescale n q r fs empty first =
      inr (refl, refl, empty, refl, refl, refl, refl, first)

  -- An encoder with frames of `n` samples, whose FIFO begins empty, whatever fails on the way, and
  -- where the first decoded frame has a timestamp: it is sent frames of `n` samples each, the first
  -- one at the timestamp of the first decoded frame, rescaled, and each other one `n` after the
  -- frame before it, in int64. Together they hold, in order, the samples of the decoded frames, or
  -- with a resampler the samples that it answers for them and at the end, and less than `n` samples
  -- of silence behind; a resampler that is made anew for a changed format drops what the old one
  -- still held. Where the stream is stopped by an error, they hold the first of these.
  pub transcode_audio-IsDelivered :
      (rescale : ℤ → ℤ) (n : ℕ) (silence : S) (ds : List (Decoded S)) (d : Decoded S) (q : Queue)
      (r : Option Context)
      → 1 ≤ n
      → contents q ≡ []
      → FirstHasPts (frames_of ds ++ d.frames)
      → IsDelivered fifo resampler encoder n
          (first_pts rescale (frames_of ds ++ d.frames))
          (audio_of (frames_of ds ++ d.frames) r)
          silence
          (transcode_audio fifo resampler encoder rescale silence
            (some n)
            ds
            d
            (start fifo resampler encoder q r))
  unfolding transcode_audio
  transcode_audio-IsDelivered rescale n silence ds d q r pos_n empty first =
      let fs = frames_of ds in
      let mid = resampled fifo resampler encoder fs r in
      rw
        (
          resampled-append fifo resampler encoder fs d.frames r,
          append_assoc mid.0 (resampled fifo resampler encoder d.frames mid.1).0 (
              left_over fifo resampler encoder (resampled fifo resampler encoder d.frames mid.1).1),
        )
        (Encoded-flush rescale n _ mid.0 mid.1 silence d _ pos_n (
          run_packets-Encoded fifo resampler encoder rescale n _ [] r ds d.frames _ pos_n
            (start-IsReady rescale n q r (fs ++ d.frames) empty first)))
