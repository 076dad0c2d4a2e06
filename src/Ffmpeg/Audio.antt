-- ===== src/Ffmpeg/Audio.antt =====
-- pkg/ffmpeg/stream_audio.go: a decoded audio stream on its way to the encoder. The AVAudioFifo, the
-- resampler, the encoder and the decoder are parameters; a sample is a value of `S`. Packets that the
-- encoder gives back, and their writing, are one answer of the encoder.
pub mod Chunks
pub mod Resampling
pub mod Timeline
pub mod Delivery
pub mod Flush
pub mod Whole
pub mod Setup
pub mod Tests
use media_processor.Prelude.{
  ℕ, zero, suc, ◌+◌, ◌-◌, ◌≤◌, ◌≡◌, Bool, true, false, ◌&&◌, ◌||◌, not, List, [], ◌∷◌, ◌++◌, Option,
  none, some, ltb, leb, ◌==◌, length, replicate, if◌then◌else◌,
}
use media_processor.Prelude.Int.{ℤ, pos, ◌+ℤ◌, eqb_ℤ}
use media_processor.Ffmpeg.Int64.{wrap}
use media_processor.Ffmpeg.Packets.{no_pts_value}

pub record Frame (S : Type 0) : Type 0 where
  pub pts : ℤ
  pub samples : List S

-- `astiav.AudioFifo`, by the samples that it holds, the oldest first. Writing adds samples at the end;
-- reading takes the oldest, as many as are asked for if there are as many. Both may fail.
pub record AudioFifo (S : Type 0) : Type 1 where
  pub Queue : Type 0
  pub contents : Queue → List S
  pub size : Queue → ℕ
  pub write : List S → Queue → Option Queue
  pub read : ℕ → Queue → Option (List S × Queue)
  pub size_lem : (q : Queue) → size q ≡ length (contents q)
  pub write_lem :
      (xs : List S) (q q' : Queue) → write xs q ≡ some q' → contents q' ≡ contents q ++ xs
  pub read_lem :
      (n : ℕ) (q q' : Queue) (ys : List S)
      → read n q ≡ some (ys, q')
      → contents q ≡ ys ++ contents q'
  pub length-read :
      (n : ℕ) (q q' : Queue) (ys : List S) → n ≤ size q → read n q ≡ some (ys, q') → length ys ≡ n

-- What ConvertFrame answers: samples, `ErrInputChanged`, nothing yet, or another error.
pub data Converted (S R : Type 0) : Type 0 where
  converted : List S → R → Converted S R
  input_changed no_output convert_error : Converted S R

-- `astiav.SoftwareResampleContext`; `drain` is ConvertFrame of nil.
pub record Resampler (S : Type 0) : Type 1 where
  pub Context : Type 0
  pub fresh : Option Context
  pub convert : Frame S → Context → Converted S Context
  pub drain : Context → Converted S Context

-- The encoder by the frames that it was sent, the latest first: whether the frame of the FIFO can be
-- made writable and be filled with silence, the next frame is taken, and the packets that come of it are written.
pub record Encoder (S : Type 0) : Type 0 where
  pub writable : List (Frame S) → Bool
  pub takes : List (Frame S) → Frame S → Bool
  pub writes : List (Frame S) → Bool
  -- The end: the encoder is flushed, and its last packets written.
  pub finishes : List (Frame S) → Bool

pub data AudioError : Type 0 where
  decoder_error resample_error fifo_error frame_error encoder_error packet_error : AudioError

-- `audioEncoderState`, and the frames that were sent to the encoder.
pub record AudioState (S Q R : Type 0) : Type 0 where
  pub fifo : Q
  pub next_pts : ℤ
  pub next_pts_initialized : Bool
  pub resample_context : Option R
  pub sent : List (Frame S)

pub data Outcome (A : Type 0) : Type 0 where
  going : A → Outcome A
  stopped : A → AudioError → Outcome A
  out_of_fuel : Outcome A

infixl 5 ◌>>=◌
abbrev pub ◌>>=◌ : {A : Type 0} → Outcome A → (A → Outcome A) → Outcome A
going a >>= f = f a
stopped a e >>= f = stopped a e
out_of_fuel >>= f = out_of_fuel

-- What a packet decodes to, and whether the decoder fails after these frames.
pub record Decoded (S : Type 0) : Type 0 where
  pub frames : List (Frame S)
  pub fails : Bool

-- Samples of a resampling, with the resampler after it, or an error.
abbrev pub Resampled : Type 0 → Type 0 → Type 0
Resampled S R = Option (List S × Option R)

module _ {S : Type 0} (fifo : AudioFifo S) (resampler : Resampler S) (encoder : Encoder S) where
  open fifo use {Queue, contents, size, write, read}
  open resampler use {Context, fresh, convert, drain}
  open encoder use {writable, takes, writes, finishes}

  abbrev pub State : Type 0
  State = AudioState S Queue Context

  -- The second attempt of `resampleFrame`, with a new context.
  unfoldable pub convert_again : Frame S → Context → Resampled S Context
  convert_again f c = elim (convert f c) [
    | converted xs c' ↦ some (xs, some c')
    | input_changed ↦ none
    | no_output ↦ none
    | convert_error ↦ none
  ]

  -- `resampleFrame`, and its guard in `encodeAudioFrame`: no context leaves the samples as they are.
  unfoldable pub resample_frame : Frame S → Option Context → Resampled S Context
  unfolding convert_again
  resample_frame f none = some (f.samples, none)
  resample_frame f (some c) = elim (convert f c) [
    | converted xs c' ↦ some (xs, some c')
    | input_changed ↦ elim fresh [ none ↦ none | some c' ↦ convert_again f c' ]
    | no_output ↦ none
    | convert_error ↦ none
  ]

  -- A frame is sent to the encoder, and the packets that come of it are written.
  unfoldable pub send_frame : Frame S → State → Outcome State
  send_frame f s =
      if takes s.sent f
      then (let s' = record s { sent = f ∷ s.sent } in
          if writes s'.sent then going s' else stopped s' packet_error)
      else stopped s encoder_error

  -- One round of `drainFifo`: a frame of `n` samples.
  unfoldable pub drain_round : ℕ → State → Outcome State
  unfolding send_frame
  drain_round n s =
      let s' : State = record s { next_pts = wrap (s.next_pts +ℤ pos n) } in
      if writable s.sent
      then elim (read n s.fifo) [
        | none ↦ stopped s' fifo_error
        | some (xs, q) ↦
            send_frame (record { pts = s.next_pts; samples = xs }) (record s' { fifo = q })
      ]
      else stopped s' frame_error

  -- `drainFifo`, with fuel.
  unfoldable pub drain_fifo : ℕ → ℕ → State → Outcome State
  unfolding drain_round
  drain_fifo zero n s = out_of_fuel
  drain_fifo (suc fuel) n s =
      let rest = drain_round n s >>= drain_fifo fuel n in
      if leb n (size s.fifo) then rest else going s

  -- One round for each sample that the FIFO holds is enough.
  unfoldable pub drain_all : ℕ → State → Outcome State
  unfolding drain_fifo
  drain_all n s = drain_fifo (size s.fifo + 1) n s

  -- What `encodeAudioFrame` does of a frame before the FIFO is drained.
  unfoldable pub seed_pts : (ℤ → ℤ) → ℤ → State → State
  seed_pts rescale p s =
      if not s.next_pts_initialized && not (eqb_ℤ p no_pts_value)
      then record s { next_pts = rescale p; next_pts_initialized = true }
      else s

  unfoldable pub write_fifo : ℕ → List S → State → Outcome State
  unfolding drain_all
  write_fifo n xs s = elim (write xs s.fifo) [
    | none ↦ stopped s fifo_error
    | some q ↦ drain_all n (record s { fifo = q })
  ]

  -- `encodeAudioFrame`; an encoder without a fixed frame size has no FIFO, and `none`.
  unfoldable pub encode_audio_frame : (ℤ → ℤ) → Option ℕ → Frame S → State → Outcome State
  unfolding resample_frame seed_pts write_fifo send_frame
  encode_audio_frame rescale size f s = elim (resample_frame f s.resample_context) [
    | none ↦ stopped s resample_error
    | some (xs, r) ↦
        let s' : State = record s { resample_context = r } in
        elim size [
          | none ↦ send_frame (record { pts = f.pts; samples = xs }) s'
          | some n ↦ write_fifo n xs (seed_pts rescale f.pts s')
        ]
  ]

  -- The frames of the decoder, until one fails.
  unfoldable pub encode_frames : (ℤ → ℤ) → Option ℕ → List (Frame S) → State → Outcome State
  encode_frames rescale size [] s = going s
  encode_frames rescale size (f ∷ fs) s =
      encode_audio_frame rescale size f s >>= encode_frames rescale size fs

  -- `processPacket`, and the first loop of `flush`.
  unfoldable pub process_packet : (ℤ → ℤ) → Option ℕ → Decoded S → State → Outcome State
  process_packet rescale size d s = encode_frames rescale size d.frames s >>= λ s'.
      if d.fails then stopped s' decoder_error else going s'

  -- The samples left in the resampler go to the FIFO.
  unfoldable pub take_left_over : Converted S Context → State → Outcome State
  take_left_over (converted [] c) s = going (record s { resample_context = some c })
  take_left_over (converted (x ∷ xs) c) s = elim (write (x ∷ xs) s.fifo) [
    | none ↦ stopped s fifo_error
    | some q ↦ going (record s { fifo = q; resample_context = some c })
  ]
  take_left_over input_changed s = stopped s resample_error
  take_left_over no_output s = going s
  take_left_over convert_error s = stopped s resample_error

  unfoldable pub flush_resampler : State → Outcome State
  unfolding take_left_over
  flush_resampler s = elim s.resample_context [
    | none ↦ going s
    | some c ↦ take_left_over (drain c) s
  ]

  -- The last samples, which do not fill a frame, padded with silence.
  unfoldable pub send_tail : S → ℕ → State → Outcome State
  unfolding send_frame
  send_tail silence n s =
      let remaining = size s.fifo in
      if remaining == 0
      then going s
      else if writable s.sent
      then elim (read remaining s.fifo) [
        | none ↦ stopped s fifo_error
        | some (xs, q) ↦
            send_frame
              (record { pts = s.next_pts; samples = xs ++ replicate (n - remaining) silence })
              (record s { fifo = q })
      ]
      else stopped s frame_error

  -- What `flush` does of the FIFO.
  unfoldable pub flush_fifo : S → Option ℕ → State → Outcome State
  unfolding flush_resampler drain_all send_tail
  flush_fifo silence none s = going s
  flush_fifo silence (some n) s = flush_resampler s >>= drain_all n >>= send_tail silence n

  -- `flush`, with the frames that the decoder still held.
  unfoldable pub flush : (ℤ → ℤ) → S → Option ℕ → Decoded S → State → Outcome State
  unfolding process_packet flush_fifo
  flush rescale silence size d s =
      process_packet rescale size d s >>= flush_fifo silence size >>= λ s'.
      if finishes s'.sent then going s' else stopped s' packet_error

  -- A stream from its packets to its end.
  unfoldable pub run_packets : (ℤ → ℤ) → Option ℕ → List (Decoded S) → State → Outcome State
  run_packets rescale size [] s = going s
  run_packets rescale size (d ∷ ds) s =
      process_packet rescale size d s >>= run_packets rescale size ds

  -- A state after `setupEncoder`.
  unfoldable pub start : Queue → Option Context → State
  start q r = record {
    fifo = q;
    next_pts = pos 0;
    next_pts_initialized = false;
    resample_context = r;
    sent = [];
  }

  -- A re-encoded stream in `Run`: its packets, then its `flush`, with what that decodes.
  unfoldable pub transcode_audio :
      (ℤ → ℤ) → S → Option ℕ → List (Decoded S) → Decoded S → State → Outcome State
  transcode_audio rescale silence size ds d s =
      run_packets rescale size ds s >>= flush rescale silence size d
