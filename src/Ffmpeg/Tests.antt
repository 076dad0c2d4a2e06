-- ===== src/Ffmpeg/Tests.antt =====
-- Instances of the theorems on packets: a stream whose DTS is missing and then regresses, a recording
-- that opens late, and a packet that its stream refuses.
use media_processor.Prelude.{
  inl, inr, refl, ℕ, true, false, not, List, [], ◌∷◌, some, length, ◌==◌, arith,
}
use media_processor.Prelude.Int.{pos, ◌-ℤ◌, ◌+ℤ◌}
use media_processor.Ffmpeg.Rebase.{Rational, new_timestamp_rebase, base_at, time_base_of, apply}
use media_processor.Ffmpeg.Rebase.Shift.{Moves, apply-Moves}
use media_processor.Ffmpeg.Demux.{Pipes, packet_read, Round, Demuxer, read_all_packets}
use media_processor.Ffmpeg.Demux.Routing.{IsRouted, read_all_packets-IsRouted}
use media_processor.Ffmpeg.Packets.{
  Packet, CopyStream, no_pts_value, set_output_stream, process_packets,
}
use media_processor.Ffmpeg.Packets.Muxing.{Muxable, process_packets-Muxable}

abbrev stream : CopyStream
stream = record {
  frames = 0;
  last_written_dts = pos 3;
  clamped_count = 0;
  require_adts_frames = true;
  dropped_count = 0;
}

abbrev header : List ℕ
header = 255 ∷ 241 ∷ 80 ∷ 128 ∷ 1 ∷ 31 ∷ 252 ∷ []

abbrev packets : List Packet
packets =
    record { pts = pos 8; dts = no_pts_value; payload = header }
    ∷ record { pts = pos 4; dts = pos 4; payload = [] }
    ∷ record { pts = pos 6; dts = pos 7; payload = header }
    ∷ []

process_packets-Muxable_example :
    Muxable no_pts_value (process_packets (λ p. p) (λ _. false) (set_output_stream stream) packets)
process_packets-Muxable_example =
    process_packets-Muxable (λ p. p) (λ _. false) stream packets
      (
        ((omega arith, omega arith), (omega arith, omega arith)),
        (
          ((omega arith, omega arith), (omega arith, omega arith)),
          (((omega arith, omega arith), (omega arith, omega arith)), tt),
        ),
      )
      (omega arith)

-- A recording that opens two seconds late, in a timebase of microseconds, and a packet without DTS
-- half a second into it.
abbrev late : Packet
late = record { pts = pos 2_500_000; dts = no_pts_value; payload = [] }

abbrev bases : List Rational
bases = (1, 1_000_000) ∷ []

apply-Moves_example :
    Moves
      (pos 0 -ℤ pos 2_000_000)
      late
      (apply (λ x _. x) (new_timestamp_rebase (pos 2_000_000) bases) (pos 0) late)
unfolding ◌-ℤ◌ ◌+ℤ◌ time_base_of base_at
apply-Moves_example =
    apply-Moves (λ x _. x) (pos 2_000_000) bases (pos 0) (1, 1_000_000) late (λ x. refl) (λ h. cc)
      (omega arith) (omega arith) refl (omega arith, omega arith) (inr (omega arith, omega arith))
      (inl refl)

-- A stream that keeps the payloads it is given, and refuses an empty one.
abbrev keeping : Pipes
keeping = record {
  Stream = List (List ℕ);
  process_packet = λ p s. (p.payload ∷ s, not (length p.payload == 0));
  clones = λ p. true;
}

abbrev rounds : List Round
rounds =
    record {
      read = packet_read 1 (record { pts = pos 0; dts = pos 0; payload = 5 ∷ [] });
      interrupted = false;
    }
    ∷ record {
      read = packet_read 0 (record { pts = pos 0; dts = pos 0; payload = [] });
      interrupted = true;
    }
    ∷ []

abbrev both : Demuxer (List (List ℕ))
both = record { streams = (0, []) ∷ (1, []) ∷ []; downmix = some (1, []) }

read_all_packets-IsRouted_example :
    IsRouted keeping (λ i p. p) 1 rounds both (read_all_packets keeping (λ i p. p) rounds both)
read_all_packets-IsRouted_example = read_all_packets-IsRouted keeping (λ i p. p) 1 rounds both
