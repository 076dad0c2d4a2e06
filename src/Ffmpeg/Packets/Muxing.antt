-- ===== src/Ffmpeg/Packets/Muxing.antt =====
-- pkg/ffmpeg/stream.go: what the muxer is handed of a copied stream.
use media_processor.Prelude.{
  ℕ, ◌+◌, ◌<◌, ◌≤◌, ◌≡◌, ◌≢◌, ◌⊎◌, refl, sym, inl, inr, Bool, true, false, List, [], ◌∷◌, length,
  arith, Bool-cases, if◌then◌else◌,
}
use media_processor.Prelude.Int.{ℤ, pos, ◌+ℤ◌, ◌≤ℤ◌, ◌<ℤ◌, +ℤ_parts, eq_of_parts}
use media_processor.Ffmpeg.Int64.{wrap, wrap_lem, min_int64, half_int64}
use media_processor.Ffmpeg.Packets.{
  Packet, CopyStream, no_pts_value, set_output_stream, clamped_dts, is_behind, monotonic_dts_clamp,
  repair_non_monotonic_dts, drop_malformed_adts, Written, write_packet, mux_packet, process_packet,
  process_packets,
}

-- What libavformat takes after a packet of DTS `last`: a greater DTS, and a PTS not behind it. A
-- stream that has shown no timestamp at all yet may go on without one.
abbrev pub Placed : ℤ → ℤ → ℤ → Type 0
Placed last dts pts =
    ((last ≡ no_pts_value) × (dts ≡ no_pts_value) × (pts ≡ no_pts_value))
    ⊎ ((dts ≢ no_pts_value)
        × ((last ≡ no_pts_value) ⊎ (last <ℤ dts))
        × ((pts ≡ no_pts_value) ⊎ (dts ≤ℤ pts)))

abbrev pub Muxable : ℤ → List Packet → Type 0
Muxable last [] = Unit
Muxable last (w ∷ ws) = Placed last w.dts w.pts × Muxable w.dts ws

-- An int64 up to this bound.
abbrev pub Within : ℕ → ℤ → Type 0
Within b z = (min_int64 ≤ℤ z) × (z ≤ℤ pos b)

-- Every packet's timestamps are int64s of at most 2 ^ 62.
abbrev pub AllSmall : (Packet → Packet) → List Packet → Type 0
AllSmall rescale [] = Unit
AllSmall rescale (p ∷ ps) =
    (Within half_int64 (rescale p).pts × Within half_int64 (rescale p).dts) × AllSmall rescale ps

next :
    (last : ℤ) (b : ℕ)
    → Within b last
    → b < 9_223_372_036_854_775_807
    → wrap (last +ℤ pos 1) ≡ last +ℤ pos 1
next last b w h =
    wrap_lem (last +ℤ pos 1) (ground (arith, +ℤ_parts last (pos 1)))
      (ground (arith, +ℤ_parts last (pos 1)))

clamped_dts_lem :
    (last dts pts : ℤ) (b : ℕ)
    → Within b last
    → Within b dts
    → Within b pts
    → b < 9_223_372_036_854_775_807
    → Within (b + 1) (clamped_dts last dts pts)
      × (((last ≡ no_pts_value) × (clamped_dts last dts pts ≡ no_pts_value) × (pts ≡ no_pts_value))
          ⊎ ((clamped_dts last dts pts ≢ no_pts_value)
              × ((last ≡ no_pts_value) ⊎ (last <ℤ clamped_dts last dts pts))))
unfolding clamped_dts
clamped_dts_lem last dts pts b l d p h = ground (arith, next last b l h, +ℤ_parts last (pos 1))

clamp-Placed :
    (last dts pts : ℤ) (b : ℕ)
    → Within b last
    → Within b dts
    → Within b pts
    → b < 9_223_372_036_854_775_807
    → let r = monotonic_dts_clamp last dts pts in Within (b + 1) r.0 × Placed last r.0 r.1
unfolding monotonic_dts_clamp is_behind
clamp-Placed last dts pts b l d p h = ground (arith, clamped_dts_lem last dts pts b l d p h)

-- Timestamps that are not reported as repaired are those that came.
unclamped :
    (last dts pts : ℤ)
    → let r = monotonic_dts_clamp last dts pts in r.2 ≡ false → (r.0 ≡ dts) × (r.1 ≡ pts)
unfolding monotonic_dts_clamp clamped_dts is_behind
unclamped last dts pts h = ground (
  arith,
  eq_of_parts dts no_pts_value,
  eq_of_parts pts no_pts_value,
  eq_of_parts last no_pts_value,
)

moved :
    (last d p d' p' : ℤ) (b : ℕ)
    → d' ≡ d
    → p' ≡ p
    → Within (b + 1) d' × Placed last d' p'
    → Within (b + 1) d × Placed last d p
moved last d p d' p' b x y r = rw (sym x, sym y) r

repair-Placed :
    (s : CopyStream) (p : Packet) (b : ℕ)
    → Within b s.last_written_dts
    → Within b p.dts
    → Within b p.pts
    → b < 9_223_372_036_854_775_807
    → let p' = (repair_non_monotonic_dts s p).1 in
      Within (b + 1) p'.dts × Placed s.last_written_dts p'.dts p'.pts
unfolding repair_non_monotonic_dts
repair-Placed s p b l d q h =
    let r = clamp-Placed s.last_written_dts p.dts p.pts b l d q h in
    elim (Bool-cases (monotonic_dts_clamp s.last_written_dts p.dts p.pts).2) [
      | inl e ↦ rw e r
      | inr e ↦
          let (x, y) = unclamped s.last_written_dts p.dts p.pts e in
          rw e (moved s.last_written_dts p.dts p.pts _ _ b x y r)
    ]

-- What one packet leaves: nothing written and the same last DTS, an error, or one packet written.
abbrev pub After : CopyStream → ℕ → Written → Type 0
After s b (s', [], true) = Unit
After s b (s', [], false) = s'.last_written_dts ≡ s.last_written_dts
After s b (s', w ∷ ws, e) =
    (e ≡ false)
    × (ws ≡ [])
    × (s'.last_written_dts ≡ w.dts)
    × Within (b + 1) w.dts
    × Placed s.last_written_dts w.dts w.pts

module _ (rescale : Packet → Packet) (rejects : Packet → Bool) where
  process_packet-After :
      (s : CopyStream) (p : Packet) (b : ℕ)
      → Within b s.last_written_dts
      → Within b (rescale p).dts
      → Within b (rescale p).pts
      → b < 9_223_372_036_854_775_807
      → After s b (process_packet rescale rejects s p)
  unfolding process_packet mux_packet write_packet drop_malformed_adts
  process_packet-After s p b l d q h = ground (arith, repair-Placed s (rescale p) b l d q h)

  -- How a list of writes grows by what one packet leaves.
  process_packets_suc :
      (s : CopyStream) (p : Packet) (ps : List Packet)
      → let r = process_packet rescale rejects s p in
        let rest = process_packets rescale rejects r.0 ps in
        process_packets rescale rejects s (p ∷ ps)
        ≡ (if r.2 then r.1 else elim r.1 [ [] ↦ rest | w ∷ _ ↦ w ∷ rest ])
  unfolding process_packets
  process_packets_suc s p ps = refl

  After-Muxable :
      (s : CopyStream) (b : ℕ) (r : Written) (rest : List Packet)
      → After s b r
      → (Within b s.last_written_dts)
      → (Within (b + 1) r.0.last_written_dts → Muxable r.0.last_written_dts rest)
      → Muxable s.last_written_dts (if r.2 then r.1 else elim r.1 [ [] ↦ rest | w ∷ _ ↦ w ∷ rest ])
  After-Muxable s b (s', [], true) rest a l m = tt
  After-Muxable s b (s', [], false) rest a l m = rw (sym a) (m (ground arith))
  After-Muxable s b (s', w ∷ ws, true) rest a l m = cc
  After-Muxable s b (s', w ∷ ws, false) rest (e, n, h, i, q) l m = (q, ground arith)

  process_packets_from :
      (b : ℕ) (s : CopyStream) (ps : List Packet)
      → half_int64 ≤ b
      → b + length ps < 9_223_372_036_854_775_807
      → Within b s.last_written_dts
      → AllSmall rescale ps
      → Muxable s.last_written_dts (process_packets rescale rejects s ps)
  unfolding process_packets
  process_packets_from b s [] h k l a = tt
  process_packets_from b s (p ∷ ps) h k l ((x, y), a) = rw (process_packets_suc s p ps) (
      After-Muxable s b (process_packet rescale rejects s p) _
        (process_packet-After s p b l (ground arith) (ground arith) (omega arith)) l
        (λ w. process_packets_from (b + 1) _ ps (omega arith) (omega arith) w a))

  -- From a newly attached output on, whatever the packets and wherever the muxer fails: as long as
  -- the rescaled timestamps are at most 2 ^ 62 and the packets fewer than 2 ^ 62 - 1, the DTSs that
  -- reach the muxer strictly increase and no PTS is behind its DTS, save that packets before the
  -- stream's first timestamp go without any.
  pub process_packets-Muxable :
      (s : CopyStream) (ps : List Packet)
      → AllSmall rescale ps
      → length ps + 1 < half_int64
      → Muxable no_pts_value (process_packets rescale rejects (set_output_stream s) ps)
  unfolding set_output_stream
  process_packets-Muxable s ps a h =
      process_packets_from half_int64 (set_output_stream s) ps (omega arith) (omega arith)
        (omega arith, omega arith) a
