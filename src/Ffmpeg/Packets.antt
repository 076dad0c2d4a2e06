-- ===== src/Ffmpeg/Packets.antt =====
-- pkg/ffmpeg/stream.go: the path of a copied packet to the muxer (`copyStreamState`). A packet is
-- what that path reads of it; the demuxer's rescaling and the muxer's answers are parameters. The
-- counters are natural numbers; logging and progress are left out.
pub mod Muxing
use media_processor.Prelude.{
  ℕ, ◌+◌, ◌/◌, Bool, true, false, ◌&&◌, ◌||◌, not, List, [], ◌∷◌, Option, none, some, ltb, ◌==◌,
  if◌then◌else◌,
}
use media_processor.Prelude.Int.{ℤ, pos, ◌+ℤ◌, ltb_ℤ, leb_ℤ, eqb_ℤ}
use media_processor.Ffmpeg.Int64.{wrap, min_int64}

-- `astiav.NoPtsValue`, AV_NOPTS_VALUE.
abbrev pub no_pts_value : ℤ
no_pts_value = min_int64

pub record Packet : Type 0 where
  pub pts : ℤ
  pub dts : ℤ
  -- The bytes.
  pub payload : List ℕ

-- `copyStreamState`.
pub record CopyStream : Type 0 where
  pub frames : ℕ
  pub last_written_dts : ℤ
  pub clamped_count : ℕ
  pub require_adts_frames : Bool
  pub dropped_count : ℕ

-- `setOutputStream`.
unfoldable pub set_output_stream : CopyStream → CopyStream
set_output_stream s = record s {
  last_written_dts = no_pts_value;
  clamped_count = 0;
  dropped_count = 0;
}

-- `isADTSFrame`: seven bytes, which start with twelve ones.
unfoldable pub is_adts_frame : List ℕ → Bool
is_adts_frame (b0 ∷ b1 ∷ b2 ∷ b3 ∷ b4 ∷ b5 ∷ b6 ∷ _) = (b0 == 255) && (b1 / 16 == 15)
is_adts_frame _ = false

-- `needsADTSFraming`, of whether the codec is AAC, and its extradata.
unfoldable pub needs_adts_framing : Bool → List ℕ → Bool
needs_adts_framing is_aac [] = is_aac
needs_adts_framing is_aac (_ ∷ _) = false

-- The DTS that `monotonicDtsClamp` gives a packet.
unfoldable pub clamped_dts : ℤ → ℤ → ℤ → ℤ
clamped_dts last dts pts =
    if eqb_ℤ dts no_pts_value
    then (if not (eqb_ℤ last no_pts_value) then wrap (last +ℤ pos 1) else pts)
    else if not (eqb_ℤ last no_pts_value) && leb_ℤ dts last
    then wrap (last +ℤ pos 1)
    else dts

-- Whether the last test of `monotonicDtsClamp` finds a PTS behind its DTS.
unfoldable pub is_behind : ℤ → ℤ → Bool
is_behind dts pts = not (eqb_ℤ dts no_pts_value) && (not (eqb_ℤ pts no_pts_value) && ltb_ℤ pts dts)

-- `monotonicDtsClamp`: the DTS, the PTS, and whether the packet was repaired.
unfoldable pub monotonic_dts_clamp : ℤ → ℤ → ℤ → ℤ × ℤ × Bool
unfolding clamped_dts is_behind
monotonic_dts_clamp last dts pts =
    let new_dts = clamped_dts last dts pts in
    let behind = is_behind new_dts pts in
    let missing =
      eqb_ℤ dts no_pts_value && (not (eqb_ℤ last no_pts_value) || not (eqb_ℤ pts no_pts_value)) in
    let late = not (eqb_ℤ dts no_pts_value) && (not (eqb_ℤ last no_pts_value) && leb_ℤ dts last) in
    (new_dts, (if behind then new_dts else pts), missing || (late || behind))

-- `repairNonMonotonicDts`.
unfoldable pub repair_non_monotonic_dts : CopyStream → Packet → CopyStream × Packet
repair_non_monotonic_dts s p =
    let (dts, pts, clamped) = monotonic_dts_clamp s.last_written_dts p.dts p.pts in
    if clamped
    then (record s { clamped_count = s.clamped_count + 1 }, record p { pts = pts; dts = dts })
    else (s, p)

-- `dropMalformedADTS`.
unfoldable pub drop_malformed_adts : CopyStream → Packet → CopyStream × Bool
drop_malformed_adts s p =
    if not s.require_adts_frames || is_adts_frame p.payload
    then (s, false)
    else (record s { dropped_count = s.dropped_count + 1 }, true)

-- The stream, what reached the muxer, and whether the muxer failed.
abbrev pub Written : Type 0
Written = CopyStream × List Packet × Bool

-- The part of `processPacket` from the write on.
unfoldable pub write_packet : CopyStream → Packet → Bool → Written
write_packet s p true = (s, [], true)
write_packet s p false = (record s { last_written_dts = p.dts }, p ∷ [], false)

module _ (rescale : Packet → Packet) (rejects : Packet → Bool) where
  -- `processPacket` past the ADTS test.
  unfoldable pub mux_packet : CopyStream → Packet → Written
  mux_packet s p =
      let (s', p') = repair_non_monotonic_dts s (rescale p) in
      write_packet (record s' { frames = s'.frames + 1 }) p' (rejects p')

  -- `processPacket`.
  unfoldable pub process_packet : CopyStream → Packet → Written
  process_packet s p =
      let (s', dropped) = drop_malformed_adts s p in
      if dropped then (s', [], false) else mux_packet s' p

  -- The packets of one stream, up to the first write that fails.
  unfoldable pub process_packets : CopyStream → List Packet → List Packet
  process_packets s [] = []
  process_packets s (p ∷ ps) =
      let (s', ws, error) = process_packet s p in
      let rest = process_packets s' ps in
      if error then ws else elim ws [ [] ↦ rest | w ∷ _ ↦ w ∷ rest ]
