-- ===== src/Ffmpeg/CropDetect/Readings.antt =====
-- The readings behind a detected crop.
use media_processor.Prelude.{
  ℕ, zero, suc, ◌<◌, ◌≡◌, sym, ap, ◌⊎◌, true, false, List, [], ◌∷◌, ◌++◌, Option, none, some, arith,
}
use media_processor.Prelude.Int.{ℤ, pos, ◌<ℤ◌, eqb_ℤ, eq_of_parts}
use media_processor.Media.Types.{CropParams}
use media_processor.Ffmpeg.CropDetect.{
  keyframe_switch_count, Metadata, crop_of, parse_crop_metadata, Push, Libav, State, same_crop,
  is_same,
}

abbrev pub Log : Type 0
Log = List (ℕ × CropParams)

-- The crops of a log, the oldest first.
abbrev pub crops_of : Log → List CropParams
crops_of [] = []
crops_of ((n, c) ∷ l) = crops_of l ++ c ∷ []

abbrev pub latest : Log → Option CropParams
latest [] = none
latest ((n, c) ∷ l) = some c

-- The readings that the outputs of the filter hold.
abbrev pub readings : List (Option Metadata) → List CropParams
readings [] = []
readings (o ∷ os) = elim (parse_crop_metadata o) [ none ↦ readings os | some c ↦ c ∷ readings os ]

-- All that the filter put out, push after push.
abbrev pub put_out : Libav → List Push → List Push → List (Option Metadata)
put_out v before [] = []
put_out v before (p ∷ ps) = v.detect (before ++ p ∷ []) ++ put_out v (before ++ p ∷ []) ps

-- The latest `k` readings of a log are the crop `c`, all taken when more than 200 frames were
-- decoded.
abbrev pub IsRepeated : ℕ → CropParams → Log → Type 0
IsRepeated zero c l = Unit {0}
IsRepeated (suc k) c [] = ⊥
IsRepeated (suc k) c ((n, d) ∷ l) = (keyframe_switch_count < n) × (d ≡ c) × IsRepeated k c l

-- They agree with the latest one.
abbrev pub IsStable : ℕ → Log → Type 0
IsStable zero l = Unit {0}
IsStable (suc k) [] = ⊥
IsStable (suc k) ((n, c) ∷ l) = (keyframe_switch_count < n) × IsRepeated k c l

abbrev pub IsPositive : CropParams → Type 0
IsPositive c = (pos 0 <ℤ c.w) × (pos 0 <ℤ c.h)

abbrev pub AllPositive : Log → Type 0
AllPositive [] = Unit {0}
AllPositive ((n, c) ∷ l) = IsPositive c × AllPositive l

-- The crop is the latest reading; the log with the readings to come is all that the filter put out;
-- and the count of stable readings tells how many of the latest agree.
pub record IsTracked (v : Libav) (coming : List CropParams) (s : State) : Type 0 where
  pub headed : s.crop ≡ latest s.log
  pub stable : IsStable s.consecutive_stable s.log
  pub positive : AllPositive s.log
  pub linked : crops_of s.log ++ coming ≡ readings (put_out v [] s.pushes)
  pub phase :
      ((s.in_phase2 ≡ false) × (s.consecutive_stable ≡ 0))
      ⊎ ((s.in_phase2 ≡ true) × (keyframe_switch_count < s.frame_counter))

abbrev pub Tracked : Libav → State → Type 0
Tracked v s = IsTracked v (readings s.outputs) s

crop_of-IsPositive : (w h x y : Option ℤ) (c : CropParams) → crop_of w h x y ≡ some c → IsPositive c
unfolding crop_of
crop_of-IsPositive none h x y c e = cc
crop_of-IsPositive (some w) none x y c e = cc
crop_of-IsPositive (some w) (some h) none y c e = cc
crop_of-IsPositive (some w) (some h) (some x) none c e = cc
crop_of-IsPositive (some w) (some h) (some x) (some y) c e = (ground arith, ground arith)

pub parse_crop_metadata-IsPositive :
    (o : Option Metadata) (c : CropParams) → parse_crop_metadata o ≡ some c → IsPositive c
unfolding parse_crop_metadata
parse_crop_metadata-IsPositive none c e = cc
parse_crop_metadata-IsPositive (some m) c e = crop_of-IsPositive m.w m.h m.x m.y c e

eqb_ℤ-eq : (a b : ℤ) → eqb_ℤ a b ≡ true → a ≡ b
eqb_ℤ-eq a b h = eq_of_parts a b (ground arith)

same_crop-eq : (c d : CropParams) → same_crop c d ≡ true → c ≡ d
unfolding same_crop
same_crop-eq c d h = ground (
  arith,
  eqb_ℤ-eq c.w d.w (ground arith),
  eqb_ℤ-eq c.h d.h (ground arith),
  eqb_ℤ-eq c.x d.x (ground arith),
  eqb_ℤ-eq c.y d.y (ground arith),
)

pub is_same-eq : (o : Option CropParams) (c : CropParams) → is_same o c ≡ true → o ≡ some c
unfolding is_same
is_same-eq none c h = cc
is_same-eq (some d) c h = ap some (sym (same_crop-eq c d h))
