-- ===== src/Media/Crop/Tests.antt =====
-- An instance of the crop theorem: letterbox bars that trim only the height.
use media_processor.Prelude.{◌≢◌, ◌⊎◌, refl, arith}
use media_processor.Prelude.Int.{pos, ◌+ℤ◌, ◌-ℤ◌}
use media_processor.Media.Types.{CropParams}
use media_processor.Media.Crop.{axis_ok, restore_axes, apply_crop_thresholds}
use media_processor.Media.Crop.Thresholds.{Fits, AxisOf, apply_crop_thresholds_sound}

abbrev detected : CropParams
detected = record { w = pos 1916; h = pos 800; x = pos 2; y = pos 140 }

abbrev applied : CropParams
applied = record { w = pos 1920; h = pos 800; x = pos 0; y = pos 140 }

apply_crop_thresholds_sound_example :
    Fits (pos 1920) (pos 1080) applied
    × AxisOf (pos 16) (pos 1920) (pos 1916) (pos 2) (pos 1920) (pos 0)
    × AxisOf (pos 16) (pos 1080) (pos 800) (pos 140) (pos 800) (pos 140)
    × ((pos 1920 ≢ pos 1920) ⊎ (pos 800 ≢ pos 1080))
unfolding apply_crop_thresholds axis_ok restore_axes ◌-ℤ◌ ◌+ℤ◌
apply_crop_thresholds_sound_example =
    apply_crop_thresholds_sound detected (pos 1920) (pos 1080) (pos 16) (pos 16) {r = applied}
      (record {
        left = omega arith;
        top = omega arith;
        wide = omega arith;
        high = omega arith;
        right = omega arith;
        bottom = omega arith;
      })
      refl
