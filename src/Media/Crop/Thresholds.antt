-- ===== src/Media/Crop/Thresholds.antt =====
-- workflows/media/detectcrop.go: what a crop that passes the thresholds is.
use media_processor.Prelude.{◌≡◌, refl, ◌≢◌, ◌⊎◌, Bool, true, false, some, arith, if◌then◌else◌}
use media_processor.Prelude.Int.{ℤ, pos, ◌+ℤ◌, ◌-ℤ◌, ◌≤ℤ◌, ◌<ℤ◌, eq_of_parts, +ℤ_parts}
use media_processor.Media.Types.{CropParams}
use media_processor.Media.Crop.{disabled, axis_ok, restore_axes, apply_crop_thresholds}

-- A region of at least one pixel inside the frame.
pub record Fits (input_w input_h : ℤ) (c : CropParams) : Type 0 where
  pub left : pos 0 ≤ℤ c.x
  pub top : pos 0 ≤ℤ c.y
  pub wide : pos 1 ≤ℤ c.w
  pub high : pos 1 ≤ℤ c.h
  pub right : c.x +ℤ c.w ≤ℤ input_w
  pub bottom : c.y +ℤ c.h ≤ℤ input_h

-- On one axis the crop is the detected one, which trims enough or has no threshold, or none.
abbrev pub AxisOf : ℤ → ℤ → ℤ → ℤ → ℤ → ℤ → Type 0
AxisOf min_crop input detected_size detected_at size at =
    ((size ≡ detected_size)
      × (at ≡ detected_at)
      × ((min_crop ≡ disabled) ⊎ (min_crop ≤ℤ input -ℤ detected_size)))
    ⊎ ((size ≡ input) × (at ≡ pos 0) × (input -ℤ detected_size <ℤ min_crop))

axis_of :
    (x_ok : Bool) (min_crop input size at : ℤ)
    → axis_ok min_crop input size ≡ x_ok
    → AxisOf min_crop input size at (if x_ok then size else input) (if x_ok then at else pos 0)
unfolding axis_ok
axis_of true min_crop input size at h = ground (arith, eq_of_parts min_crop disabled)
axis_of false min_crop input size at h = ground arith

axis_inside :
    (ok : Bool) (input size at : ℤ)
    → pos 0 ≤ℤ at
    → pos 1 ≤ℤ size
    → at +ℤ size ≤ℤ input
    → let size' = if ok then size else input in
      let at' = if ok then at else pos 0 in
      (pos 0 ≤ℤ at') × (pos 1 ≤ℤ size') × (at' +ℤ size' ≤ℤ input)
axis_inside true input size at l s r = (l, s, r)
axis_inside false input size at l s r = omega (arith, +ℤ_parts)

restored :
    (d : CropParams) (input_w input_h min_crop_x min_crop_y : ℤ) {r : CropParams}
    → apply_crop_thresholds d input_w input_h min_crop_x min_crop_y ≡ some r
    → (r
        ≡ restore_axes d input_w input_h
            (axis_ok min_crop_x input_w d.w)
            (axis_ok min_crop_y input_h d.h))
      × ((r.w ≢ input_w) ⊎ (r.h ≢ input_h))
unfolding apply_crop_thresholds
restored d iw ih mx my h = ground arith

-- Of a detected region of at least one pixel inside the frame: a crop that is applied lies inside the
-- frame, takes each axis whole, as detected if it trims enough there or there is no threshold, else
-- uncut, and cuts something.
pub apply_crop_thresholds_sound :
    (d : CropParams) (input_w input_h min_crop_x min_crop_y : ℤ) {r : CropParams}
    → Fits input_w input_h d
    → apply_crop_thresholds d input_w input_h min_crop_x min_crop_y ≡ some r
    → Fits input_w input_h r
      × AxisOf min_crop_x input_w d.w d.x r.w r.x
      × AxisOf min_crop_y input_h d.h d.y r.h r.y
      × ((r.w ≢ input_w) ⊎ (r.h ≢ input_h))
unfolding restore_axes
apply_crop_thresholds_sound d iw ih mx my f h =
    let x_ok = axis_ok mx iw d.w in
    let y_ok = axis_ok my ih d.h in
    let (e, cuts) = restored d iw ih mx my h in
    let (l, s, r) = axis_inside x_ok iw d.w d.x f.left f.wide f.right in
    let (t, v, b) = axis_inside y_ok ih d.h d.y f.top f.high f.bottom in
    rw e (
      record { left = l; top = t; wide = s; high = v; right = r; bottom = b },
      axis_of x_ok mx iw d.w d.x refl,
      axis_of y_ok my ih d.h d.y refl,
      rw e at cuts,
    )
