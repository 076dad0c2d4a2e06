-- ===== src/Ffmpeg/Audio/Delivery.antt =====
-- The packets of an audio stream up to its end.
use mathlib.Core.List.{append-nil, append_assoc}
use media_processor.Prelude.{
  ℕ, ◌≤◌, sym, Bool, true, false, List, [], ◌∷◌, ◌++◌, Option, some, if◌then◌else◌,
}
use media_processor.Prelude.Int.{ℤ}
use media_processor.Ffmpeg.Audio.{
  Frame, AudioFifo, Resampler, Encoder, Decoded, AudioError, Outcome, going, stopped, out_of_fuel,
  ◌>>=◌, State, process_packet, run_packets,
}
use media_processor.Ffmpeg.Audio.Resampling.{resampled, resampled-append}
use media_processor.Ffmpeg.Audio.Timeline.{
  frames_of, IsReady, Encoded, Encoded-bind, IsReady-some, encode_frames-Encoded,
}

module _ {S : Type 0} (fifo : AudioFifo S) (resampler : Resampler S) (encoder : Encoder S) where
  open fifo use {Queue, contents, size, write, read, size_lem, write_lem, read_lem, length-read}
  open resampler use {Context, drain}
  open encoder use {writable, takes, writes, finishes}

  Encoded-check :
      (rescale : ℤ → ℤ) (n : ℕ) (p : ℤ) (xs : List S) (r : Option Context) (rest : List (Frame S))
      (b : Bool) (e : AudioError) (o : Outcome (State fifo resampler encoder))
      → Encoded fifo resampler encoder rescale n p xs r rest o
      → Encoded fifo resampler encoder rescale n p xs r rest
          (o >>= λ s. if b then stopped s e else going s)
  Encoded-check rescale n p xs r rest true e (going s) h =
      IsReady-some fifo resampler encoder rescale n p xs r rest s h
  Encoded-check rescale n p xs r rest false e (going s) h = h
  Encoded-check rescale n p xs r rest b e (stopped s e') h = h
  Encoded-check rescale n p xs r rest b e out_of_fuel h = h

  pub process_packet-Encoded :
      (rescale : ℤ → ℤ) (n : ℕ) (p : ℤ) (xs : List S) (r : Option Context) (d : Decoded S)
      (rest : List (Frame S)) (s : State fifo resampler encoder)
      → 1 ≤ n
      → IsReady fifo resampler encoder rescale n p xs r (d.frames ++ rest) s
      → Encoded fifo resampler encoder rescale n p
          (xs ++ (resampled fifo resampler encoder d.frames r).0)
          (resampled fifo resampler encoder d.frames r).1
          rest
          (process_packet fifo resampler encoder rescale (some n) d s)
  unfolding process_packet
  process_packet-Encoded rescale n p xs r d rest s pos_n h =
      Encoded-check rescale n p _ _ rest d.fails _ _
        (encode_frames-Encoded fifo resampler encoder rescale n p xs r d.frames rest s pos_n h)

  pub run_packets-Encoded :
      (rescale : ℤ → ℤ) (n : ℕ) (p : ℤ) (xs : List S) (r : Option Context) (ds : List (Decoded S))
      (rest : List (Frame S)) (s : State fifo resampler encoder)
      → 1 ≤ n
      → IsReady fifo resampler encoder rescale n p xs r (frames_of ds ++ rest) s
      → Encoded fifo resampler encoder rescale n p
          (xs ++ (resampled fifo resampler encoder (frames_of ds) r).0)
          (resampled fifo resampler encoder (frames_of ds) r).1
          rest
          (run_packets fifo resampler encoder rescale (some n) ds s)
  unfolding run_packets resampled
  run_packets-Encoded rescale n p xs r [] rest s pos_n h = rw (append-nil xs) h
  run_packets-Encoded rescale n p xs r (d ∷ ds) rest s pos_n h =
      let r' = (resampled fifo resampler encoder d.frames r).1 in
      let ys = (resampled fifo resampler encoder d.frames r).0 in
      let zs = resampled fifo resampler encoder (frames_of ds) r' in
      rw
        (
          resampled-append fifo resampler encoder d.frames (frames_of ds) r,
          sym (append_assoc xs ys zs.0),
        )
        (Encoded-bind fifo resampler encoder rescale n p (xs ++ ys) zs.0 r' zs.1
          (frames_of ds ++ rest) rest _ _
          (λ s' h'. run_packets-Encoded rescale n p (xs ++ ys) r' ds rest s' pos_n h')
          (process_packet-Encoded rescale n p xs r d (frames_of ds ++ rest) s pos_n
            (rw (sym (append_assoc d.frames (frames_of ds) rest)) h)))
