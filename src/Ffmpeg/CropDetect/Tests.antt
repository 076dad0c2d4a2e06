-- ===== src/Ffmpeg/CropDetect/Tests.antt =====
-- Instances of the theorems on the detection of a crop: a packet with 210 frames, of which the filter
-- gives the same reading each time.
use media_processor.Prelude.{◌≡◌, refl, true, [], ◌∷◌, none, some, replicate}
use media_processor.Prelude.Int.{pos}
use media_processor.Ffmpeg.CropDetect.{
  Libav, start, converged, read_packets, read_packet, is_skipped, send_packet, after_send,
  feed_decoder, drain_decoder, drain_frames, take_frame, send_to_filter, count_frame, add_frame,
  push, drain_filter, drain_outputs, read_output, read_crop, record_reading, is_same,
  parse_crop_metadata, and_then, halt_of, run_cropdetect_loop, stability_threshold,
}
use media_processor.Ffmpeg.CropDetect.Readings.{IsStable}
use media_processor.Ffmpeg.CropDetect.Detection.{
  IsDetected, run_cropdetect_loop-IsDetected, read_packets-IsStable,
}

abbrev letterboxed : Libav
letterboxed = record {
  video_stream_index = 0;
  packets = record { number = 0; stream_index = 0; is_key = true } ∷ [];
  read_error = none;
  send_error = λ fs f. none;
  decode = λ fs. replicate 210 0;
  receive_error = λ fs. none;
  add_error = λ ps f. none;
  detect = λ ps.
      some
        (record { w = some (pos 1920); h = some (pos 800); x = some (pos 0); y = some (pos 140) })
      ∷ [];
  get_error = λ ps. none;
}

run_cropdetect_loop-IsDetected_example : IsDetected letterboxed (run_cropdetect_loop letterboxed)
run_cropdetect_loop-IsDetected_example = run_cropdetect_loop-IsDetected letterboxed

converges : (read_packets letterboxed letterboxed.packets start).1 ≡ some converged
unfolding read_packets read_packet is_skipped send_packet after_send feed_decoder drain_decoder
    drain_frames take_frame send_to_filter count_frame add_frame push drain_filter drain_outputs
    read_output read_crop record_reading is_same parse_crop_metadata and_then halt_of
converges = refl

read_packets-IsStable_example :
    IsStable stability_threshold (read_packets letterboxed letterboxed.packets start).0.log
read_packets-IsStable_example = read_packets-IsStable letterboxed converges
