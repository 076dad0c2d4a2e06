-- ===== src/Ffmpeg/Demux.antt =====
-- pkg/ffmpeg/transcode.go: the packets of the input on their way to the streams (`readAllPackets`).
-- What a stream does of a packet is a parameter, and so is whether a packet can be cloned.
pub mod Routing
use media_processor.Prelude.{
  ℕ, Bool, true, false, List, [], ◌∷◌, Option, none, some, ◌==◌, if◌then◌else◌,
}
use media_processor.Ffmpeg.Packets.{Packet}

-- The states of streams: `processPacket` answers whether it succeeds, `Ref` of a packet as well.
pub record Pipes : Type 1 where
  pub Stream : Type 0
  pub process_packet : Packet → Stream → Stream × Bool
  pub clones : Packet → Bool

-- What ReadFrame answers; the end of the file is the end of the list.
pub data Read : Type 0 where
  packet_read : ℕ → Packet → Read
  read_failed : Read

-- A round of the loop: what is read, and whether the interrupter has fired by its end.
pub record Round : Type 0 where
  pub read : Read
  pub interrupted : Bool

pub data Ended : Type 0 where
  finished cancelled failed : Ended

-- The map of streams, and the downmix with the index of its source.
pub record Demuxer (S : Type 0) : Type 0 where
  pub streams : List (ℕ × S)
  pub downmix : Option (ℕ × S)

pub data Fed : Type 0 where
  fed not_cloned refused : Fed

unfoldable pub fed_of : Bool → Fed
fed_of true = fed
fed_of false = refused

-- An error, or the end of the context behind it.
unfoldable pub failure : Bool → Ended
failure true = cancelled
failure false = failed

module _ (pipes : Pipes) (rebase : ℕ → Packet → Packet) where
  open pipes use {Stream, process_packet, clones}

  -- The stream of a packet processes it; a packet of no stream is dropped.
  unfoldable pub feed : ℕ → Packet → List (ℕ × Stream) → List (ℕ × Stream) × Bool
  feed i p [] = ([], true)
  feed i p ((j, s) ∷ ss) =
      let rest = feed i p ss in
      if j == i
      then ((j, (process_packet p s).0) ∷ ss, (process_packet p s).1)
      else ((j, s) ∷ rest.0, rest.1)

  unfoldable pub feed_downmix : ℕ → Packet → Option (ℕ × Stream) → Option (ℕ × Stream) × Fed
  unfolding fed_of
  feed_downmix i p none = (none, fed)
  feed_downmix i p (some (j, s)) =
      if j == i
      then (if clones p
          then (some (j, (process_packet p s).0), fed_of (process_packet p s).1)
          else (some (j, s), not_cloned))
      else (some (j, s), fed)

  -- The streams, once the downmix has its clone; `rest` is the rest of the loop.
  unfoldable pub after_downmix :
      (Demuxer Stream → Ended × Demuxer Stream)
      → Bool
      → ℕ
      → Packet
      → List (ℕ × Stream)
      → Option (ℕ × Stream) × Fed
      → Ended × Demuxer Stream
  unfolding feed failure
  after_downmix rest interrupted i p ss (mix, fed) =
      let d : Demuxer Stream = record { streams = (feed i p ss).0; downmix = mix } in
      if (feed i p ss).1 then rest d else (failure interrupted, d)
  after_downmix rest interrupted i p ss (mix, not_cloned) =
      (failed, record { streams = ss; downmix = mix })
  after_downmix rest interrupted i p ss (mix, refused) =
      (failure interrupted, record { streams = ss; downmix = mix })

  -- `readAllPackets`.
  unfoldable pub read_all_packets : List Round → Demuxer Stream → Ended × Demuxer Stream
  unfolding feed_downmix after_downmix failure
  read_all_packets [] d = (finished, d)
  read_all_packets (r ∷ rs) d =
      let rest = read_all_packets rs in
      elim r.read [
        | read_failed ↦ (failure r.interrupted, d)
        | packet_read i p ↦
            after_downmix rest r.interrupted i (rebase i p) d.streams
              (feed_downmix i (rebase i p) d.downmix)
      ]
