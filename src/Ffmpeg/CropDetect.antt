-- ===== src/Ffmpeg/CropDetect.antt =====
-- pkg/ffmpeg/cropdetect.go: `runCropdetectLoop`. What the decoder and the filter have ready stays with
-- them until it is read, also where convergence ends a drain early.
pub mod Readings
pub mod Tracking
pub mod Steps
pub mod Detection
pub mod Tests
use media_processor.Prelude.{
  ℕ, ◌+◌, ◌%◌, Bool, true, false, not, ◌&&◌, ◌||◌, List, [], ◌∷◌, ◌++◌, Option, none, some, ltb,
  leb, ◌==◌, ◌⊎◌, inl, inr, if◌then◌else◌,
}
use media_processor.Prelude.Int.{ℤ, pos, ltb_ℤ, leb_ℤ, eqb_ℤ}
use media_processor.Media.Types.{CropParams}
pub use media_processor.Ffmpeg.CropState.{
  keyframe_switch_count, always_include_count, sample_interval, stability_threshold, Metadata,
  Packet, Feed, Push, CropError, DetectError, Libav, State, start, packet, flush, frame, eof,
  context_error, libav_error, no_metadata, aborted,
}
unfoldable pub use media_processor.Ffmpeg.CropState.{crop_of, parse_crop_metadata}

-- `errCropConverged`, or an error.
pub data Halt : Type 0 where
  converged : Halt
  failed : CropError → Halt

abbrev pub Run : Type 0
Run = State × Option Halt

unfoldable pub and_then : Run → (State → Run) → Run
and_then (s, some h) rest = (s, some h)
and_then (s, none) rest = rest s

unfoldable pub halt_of : Option CropError → Option Halt
halt_of none = none
halt_of (some e) = some (failed e)

unfoldable pub same_crop : CropParams → CropParams → Bool
same_crop c d = eqb_ℤ c.w d.w && (eqb_ℤ c.h d.h && (eqb_ℤ c.x d.x && eqb_ℤ c.y d.y))

unfoldable pub is_same : Option CropParams → CropParams → Bool
unfolding same_crop
is_same none c = false
is_same (some d) c = same_crop c d

-- A reading is recorded; the count of stable readings is given.
unfoldable pub record_reading : CropParams → ℕ → State → State
record_reading c n s = record s {
  crop = some c;
  consecutive_stable = n;
  log = (s.frame_counter, c) ∷ s.log;
}

-- A reading with what follows it: only phase 2 counts stable readings, and five of them end the
-- drain.
unfoldable pub read_crop : CropParams → State → (State → Run) → Run
read_crop c s rest =
    let n = s.consecutive_stable + 1 in
    if not s.in_phase2
    then rest (record_reading c s.consecutive_stable s)
    else if not (is_same s.crop c)
    then rest (record_reading c 1 s)
    else if leb stability_threshold n
    then (record_reading c n s, some converged)
    else rest (record_reading c n s)

unfoldable pub read_output : Option CropParams → State → (State → Run) → Run
read_output none s rest = rest s
read_output (some c) s rest = read_crop c s rest

-- `drainFilter`.
unfoldable pub drain_outputs : Option CropError → List (Option Metadata) → State → Run
drain_outputs e [] s = (record s { outputs = [] }, halt_of e)
drain_outputs e (o ∷ os) s =
    read_output (parse_crop_metadata o) (record s { outputs = os }) (drain_outputs e os)

unfoldable pub drain_filter : Libav → State → Run
drain_filter v s = drain_outputs (v.get_error s.pushes) s.outputs s

-- The filter is given a frame, or the end.
unfoldable pub push : Libav → Push → State → State
push v p s = record s {
  pushes = s.pushes ++ p ∷ [];
  outputs = s.outputs ++ v.detect (s.pushes ++ p ∷ []);
}

unfoldable pub add_frame : Libav → ℕ → State → Option CropError → Run
add_frame v f s (some e) = (s, some (failed e))
add_frame v f s none = drain_filter v (push v (frame f) s)

-- `sendToFilter`, by the number of frames before.
unfoldable pub send_to_filter : ℕ → Bool
send_to_filter n =
    leb keyframe_switch_count n || (ltb n always_include_count || n % sample_interval == 0)

unfoldable pub count_frame : State → List ℕ → State
count_frame s fs = record s {
  in_phase2 = leb keyframe_switch_count s.frame_counter;
  frame_counter = s.frame_counter + 1;
  frames = fs;
}

-- A decoded frame.
unfoldable pub take_frame : Libav → ℕ → List ℕ → State → Run
take_frame v f fs s =
    if send_to_filter s.frame_counter
    then add_frame v f (count_frame s fs) (v.add_error s.pushes f)
    else (count_frame s fs, none)

-- `drainDecoder`.
unfoldable pub drain_frames : Libav → Option CropError → List ℕ → State → Run
drain_frames v e [] s = (record s { frames = [] }, halt_of e)
drain_frames v e (f ∷ fs) s = and_then (take_frame v f fs s) (drain_frames v e fs)

unfoldable pub drain_decoder : Libav → State → Run
drain_decoder v s = drain_frames v (v.receive_error s.feeds) s.frames s

-- The decoder is sent a packet, or the flush, and drained.
unfoldable pub feed_decoder : Libav → Feed → State → State
feed_decoder v x s = record s {
  feeds = s.feeds ++ x ∷ [];
  frames = s.frames ++ v.decode (s.feeds ++ x ∷ []);
}

unfoldable pub after_send : Libav → Feed → State → Option CropError → Run
after_send v x s (some e) = (s, some (failed e))
after_send v x s none = drain_decoder v (feed_decoder v x s)

unfoldable pub send_packet : Libav → Feed → State → Run
send_packet v x s = after_send v x s (v.send_error s.feeds x)

-- Whether a packet is passed over: of another stream, or no keyframe in phase 2.
unfoldable pub is_skipped : Libav → Packet → State → Bool
is_skipped v p s =
    not (p.stream_index == v.video_stream_index)
    || (leb keyframe_switch_count s.frame_counter && not p.is_key)

unfoldable pub read_packet : Libav → Packet → State → Run
read_packet v p s = if is_skipped v p s then (s, none) else send_packet v (packet p) s

-- The loop over the packets.
unfoldable pub read_packets : Libav → List Packet → State → Run
read_packets v [] s = (s, halt_of v.read_error)
read_packets v (p ∷ ps) s = and_then (read_packet v p s) (read_packets v ps)

-- Convergence is no error: what follows goes on.
abbrev pub Detection : Type 0
Detection = State × (DetectError ⊎ CropParams)

unfoldable pub settle : Run → (State → Detection) → Detection
settle (s, none) rest = rest s
settle (s, some converged) rest = rest s
settle (s, some (failed e)) rest = (s, inl (aborted e))

unfoldable pub result_of : Option CropParams → DetectError ⊎ CropParams
result_of none = inl no_metadata
result_of (some c) = inr c

-- The end of the filter, and the result.
unfoldable pub finish_filter : Libav → State → Detection
finish_filter v s = settle (drain_filter v (push v eof s)) (λ t. (t, result_of t.crop))

-- `runCropdetectLoop`.
unfoldable pub run_cropdetect_loop : Libav → Detection
run_cropdetect_loop v =
    settle (read_packets v v.packets start) (λ s. settle (send_packet v flush s) (finish_filter v))
