-- ===== src/Media/Crop.antt =====
-- workflows/media/detectcrop.go: the crop that is applied, from the crop that ffmpeg detects.
pub mod Thresholds
pub mod Tests
use media_processor.Prelude.{
  ℕ, ◌≡◌, ◌≢◌, ◌⊎◌, inl, inr, Bool, true, false, ◌&&◌, ◌||◌, not, Option, none, some, arith,
  if◌then◌else◌,
}
use media_processor.Prelude.Int.{
  ℤ, pos, negsuc, ◌+ℤ◌, ◌-ℤ◌, ◌≤ℤ◌, ◌<ℤ◌, leb_ℤ, eqb_ℤ, eq_of_parts, +ℤ_parts, -ℤ_parts,
}
use media_processor.Media.Types.{CropParams}

-- -1 disables a threshold.
abbrev pub disabled : ℤ
disabled = negsuc 0

-- Whether the crop of one axis is taken: `xOK` and `yOK`.
unfoldable pub axis_ok : ℤ → ℤ → ℤ → Bool
axis_ok min_crop input detected = eqb_ℤ min_crop disabled || leb_ℤ min_crop (input -ℤ detected)

-- `result`, with each failing axis put back to the full frame.
unfoldable pub restore_axes : CropParams → ℤ → ℤ → Bool → Bool → CropParams
restore_axes d input_w input_h x_ok y_ok = record {
  w = if x_ok then d.w else input_w;
  h = if y_ok then d.h else input_h;
  x = if x_ok then d.x else pos 0;
  y = if y_ok then d.y else pos 0;
}

-- `applyCropThresholds`.
unfoldable pub apply_crop_thresholds : CropParams → ℤ → ℤ → ℤ → ℤ → Option CropParams
apply_crop_thresholds d input_w input_h min_crop_x min_crop_y =
    let x_ok = axis_ok min_crop_x input_w d.w in
    let y_ok = axis_ok min_crop_y input_h d.h in
    let result = restore_axes d input_w input_h x_ok y_ok in
    if not x_ok && not y_ok
    then none
    else if eqb_ℤ result.w input_w && eqb_ℤ result.h input_h
    then none
    else some result

-- What `RunDetectCrop` comes to: whether ffmpeg ran, and the crop or its error.
pub data CropRun (E : Type 0) : Type 0 where
  not_run : CropRun E
  crop_error : E → CropRun E
  crop_result : Option CropParams → CropRun E

-- `RunDetectCrop`; `detected` is what `ffmpeg.DetectCrop` would answer.
unfoldable pub run_detect_crop : {E : Type 0} → E ⊎ CropParams → ℤ → ℤ → ℤ → ℤ → CropRun E
run_detect_crop detected input_w input_h min_crop_x min_crop_y =
    if eqb_ℤ min_crop_x disabled && eqb_ℤ min_crop_y disabled then not_run else elim detected [
      | inl e ↦ crop_error e
      | inr d ↦ crop_result (apply_crop_thresholds d input_w input_h min_crop_x min_crop_y)
    ]
