-- ===== src/Ffmpeg/Rebase.antt =====
-- pkg/ffmpeg/timestamps.go: the shift of a source's packets to a timeline that starts at zero. A
-- timebase is a pair of numbers; `rescale` is `astiav.RescaleQ` from AV_TIME_BASE units.
pub mod Shift
use media_processor.Prelude.{
  ℕ, Bool, List, [], ◌∷◌, Option, none, some, if◌then◌else◌, ◌+◌, ◌==◌, zero, suc,
}
use media_processor.Prelude.Int.{ℤ, pos, negsuc, ◌+ℤ◌, ◌-ℤ◌, eqb_ℤ}
use media_processor.Ffmpeg.Int64.{wrap}
use media_processor.Ffmpeg.Packets.{Packet, no_pts_value}

-- `astiav.Rational`: numerator and denominator.
abbrev pub Rational : Type 0
Rational = ℕ × ℕ

-- `timestampRebase`.
pub record TimestampRebase : Type 0 where
  pub offset : ℤ
  pub time_bases : List Rational

-- `rebaseOffset`.
unfoldable pub rebase_offset : ℤ → ℤ
rebase_offset start = if eqb_ℤ start no_pts_value then pos 0 else wrap (pos 0 -ℤ start)

-- `newTimestampRebase`, from the input's start time and its streams' timebases.
unfoldable pub new_timestamp_rebase : ℤ → List Rational → TimestampRebase
new_timestamp_rebase start bases = record { offset = rebase_offset start; time_bases = bases }

unfoldable pub base_at : List Rational → ℕ → Option Rational
base_at [] i = none
base_at (b ∷ bs) zero = some b
base_at (b ∷ bs) (suc i) = base_at bs i

-- The timebase of a stream index, if it is in range.
unfoldable pub time_base_of : List Rational → ℤ → Option Rational
unfolding base_at
time_base_of bases (pos i) = base_at bases i
time_base_of bases (negsuc i) = none

-- One timestamp; a missing one stays missing.
unfoldable pub shift : ℤ → ℤ → ℤ
shift delta t = if eqb_ℤ t no_pts_value then t else wrap (t +ℤ delta)

unfoldable pub shift_packet : ℤ → Packet → Packet
shift_packet delta p = record p { pts = shift delta p.pts; dts = shift delta p.dts }

-- `apply`, to a packet of the stream of this index.
unfoldable pub apply : (ℤ → Rational → ℤ) → TimestampRebase → ℤ → Packet → Packet
apply rescale tr index p =
    if eqb_ℤ tr.offset (pos 0) then p else elim (time_base_of tr.time_bases index) [
      | none ↦ p
      | some b ↦ shift_packet (rescale tr.offset b) p
    ]
