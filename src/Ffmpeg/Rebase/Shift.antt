-- ===== src/Ffmpeg/Rebase/Shift.antt =====
-- pkg/ffmpeg/timestamps.go: how far packets move.
use media_processor.Prelude.{
  ◌≡◌, ◌≢◌, ◌⊎◌, refl, sym, ap, ◌∙◌, inl, inr, List, some, arith, Bool-cases,
}
use media_processor.Prelude.Int.{
  ℤ, pos, ◌+ℤ◌, ◌-ℤ◌, ◌≤ℤ◌, ◌<ℤ◌, eqb_ℤ, +ℤ_parts, -ℤ_parts, eq_of_parts,
}
use media_processor.Ffmpeg.Int64.{wrap, wrap_lem, min_int64, half_int64}
use media_processor.Ffmpeg.Packets.{Packet, no_pts_value}
use media_processor.Ffmpeg.Rebase.{
  Rational, TimestampRebase, rebase_offset, new_timestamp_rebase, time_base_of, shift, shift_packet,
  apply,
}

-- Less than 2 ^ 62 away from zero.
abbrev pub Small : ℤ → Type 0
Small z = (pos 0 <ℤ z +ℤ pos half_int64) × (z <ℤ pos half_int64)

-- Missing, or less than 2 ^ 62 away from zero.
abbrev pub Usable : ℤ → Type 0
Usable t = (t ≡ no_pts_value) ⊎ Small t

-- A timestamp moved by `delta`: a missing one is still missing, and any other is there and as much
-- greater.
abbrev pub Shifted : ℤ → ℤ → ℤ → Type 0
Shifted delta t t' =
    ((t ≡ no_pts_value) × (t' ≡ no_pts_value))
    ⊎ ((t ≢ no_pts_value) × (t' ≢ no_pts_value) × (t' ≡ t +ℤ delta))

sum_wraps : (delta t : ℤ) → Small delta → Small t → wrap (t +ℤ delta) ≡ t +ℤ delta
sum_wraps delta t d s =
    wrap_lem (t +ℤ delta)
      (omega
        (arith, +ℤ_parts t delta, +ℤ_parts t (pos half_int64), +ℤ_parts delta (pos half_int64)))
      (omega (arith, +ℤ_parts t delta))

shift_lem : (delta t : ℤ) → Small delta → Usable t → Shifted delta t (shift delta t)
unfolding shift
shift_lem delta t d (inl e) = inl (e, ground arith)
shift_lem delta t d (inr s) = inr (
  ground (arith, +ℤ_parts t (pos half_int64)),
  ground (
    arith,
    sum_wraps delta t d s,
    +ℤ_parts t delta,
    +ℤ_parts t (pos half_int64),
    +ℤ_parts delta (pos half_int64),
  ),
  ground (arith, sum_wraps delta t d s, +ℤ_parts t (pos half_int64)),
)

-- How `apply` moves a packet.
abbrev pub Moves : ℤ → Packet → Packet → Type 0
Moves delta p p' = Shifted delta p.pts p'.pts × Shifted delta p.dts p'.dts

shift_packet-Moves :
    (delta : ℤ) (p : Packet)
    → Small delta
    → Usable p.pts
    → Usable p.dts
    → Moves delta p (shift_packet delta p)
unfolding shift_packet
shift_packet-Moves delta p d u v = (shift_lem delta p.pts d u, shift_lem delta p.dts d v)

same-Shifted : (t delta : ℤ) → delta ≡ pos 0 → Shifted delta t t
same-Shifted t delta z = elim (Bool-cases (eqb_ℤ t no_pts_value)) [
  | inl e ↦ let m = eq_of_parts t no_pts_value (ground arith) in inl (m, m)
  | inr e ↦ inr (
    (λ m. ground arith),
    (λ m. ground arith),
    ground (arith, eq_of_parts t (t +ℤ delta), +ℤ_parts t delta),
  )
]

-- What `apply` does on a stream whose timebase is known, by the offset.
applied :
    (rescale : ℤ → Rational → ℤ) (tr : TimestampRebase) (index : ℤ) (b : Rational) (p : Packet)
    → time_base_of tr.time_bases index ≡ some b
    → ((tr.offset ≡ pos 0) × (apply rescale tr index p ≡ p))
      ⊎ (apply rescale tr index p ≡ shift_packet (rescale tr.offset b) p)
unfolding apply
applied rescale tr index b p e = elim (Bool-cases (eqb_ℤ tr.offset (pos 0))) [
  | inl z ↦ inl (eq_of_parts tr.offset (pos 0) (ground arith), rw z refl)
  | inr n ↦ inr (rw (n, apply, e) refl)
]

-- The offset of a known start time is its opposite.
rebase_offset_lem :
    (start : ℤ)
    → start ≢ no_pts_value
    → min_int64 ≤ℤ start
    → start <ℤ pos 9_223_372_036_854_775_808
    → rebase_offset start ≡ pos 0 -ℤ start
unfolding rebase_offset
rebase_offset_lem start n l h =
    ground
      (arith, eq_of_parts start no_pts_value, wrap_lem (pos 0 -ℤ start), -ℤ_parts (pos 0) start)

-- An odd function of integers is 0 at 0.
odd_zero : (z : ℤ) → z ≡ pos 0 -ℤ z → pos 0 -ℤ z ≡ pos 0
odd_zero z e = ground (arith, eq_of_parts z (pos 0), -ℤ_parts (pos 0) z)

negated_zero : (z : ℤ) → pos 0 -ℤ z ≡ pos 0 → z ≡ pos 0 -ℤ z
negated_zero z e = ground (arith, eq_of_parts z (pos 0), -ℤ_parts (pos 0) z)

-- Of a source that reports its start time, every packet of a stream with a known timebase moves
-- back by the start time in that timebase, which is the same for all its packets: missing
-- timestamps stay missing, and no timestamp becomes missing. The rescaling takes opposites to
-- opposites, and the shift and the timestamps are less than 2 ^ 62 away from zero.
pub apply-Moves :
    (rescale : ℤ → Rational → ℤ) (start : ℤ) (bases : List Rational) (index : ℤ) (b : Rational)
    (p : Packet)
    → ((x : ℤ) → rescale (pos 0 -ℤ x) b ≡ pos 0 -ℤ rescale x b)
    → start ≢ no_pts_value
    → min_int64 ≤ℤ start
    → start <ℤ pos 9_223_372_036_854_775_808
    → time_base_of bases index ≡ some b
    → Small (pos 0 -ℤ rescale start b)
    → Usable p.pts
    → Usable p.dts
    → Moves (pos 0 -ℤ rescale start b) p (apply rescale (new_timestamp_rebase start bases) index p)
unfolding new_timestamp_rebase
apply-Moves rescale start bases index b p odd n l h e small u v =
    let tr = new_timestamp_rebase start bases in
    let o = rebase_offset_lem start n l h in
    elim (applied rescale tr index b p e) [
      | inl (z, same) ↦
          let fixed = negated_zero start (sym o ∙ z) in
          let still = odd_zero (rescale start b) (ap (λ x. rescale x b) fixed ∙ odd start) in
          rw same (same-Shifted p.pts _ still, same-Shifted p.dts _ still)
      | inr moved ↦
          rw (moved, o, odd start) (shift_packet-Moves (pos 0 -ℤ rescale start b) p small u v)
    ]
