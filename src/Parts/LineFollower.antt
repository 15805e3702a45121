-- ===== src/Parts/LineFollower.antt =====
-- include/parts/line-follower.h and src/parts/line-follower.cpp: where the line is in a picture, and what
-- is drawn into the diagnostic picture.
pub mod Detection
pub mod Drawn
pub mod Update
use donkeycar_gt.Prelude.{
  ℕ, ◌+◌, ◌-◌, ◌*◌, ◌/◌, ◌≤◌, ◌≡◌, Bool, true, false, List, [], ◌∷◌, ◌++◌, Option, none, some, leb,
  if◌then◌else◌,
}
use donkeycar_gt.Prelude.Int.{ℤ, pos, ltb_ℤ, ◌-ℤ◌}
use donkeycar_gt.Run.{Run, ok, fault, null_deref, cv_error, require, the, ◌>>=◌, ◌>>◌}
use donkeycar_gt.Parts.Vision.{Vision, Scalar}

abbrev pub scan_y : ℕ
scan_y = 100

abbrev pub scan_height : ℕ
scan_height = 20

abbrev pub color_threshold_low : Scalar
color_threshold_low = record { s0 = 0; s1 = 80; s2 = 80 }

abbrev pub color_threshold_high : Scalar
color_threshold_high = record { s0 = 80; s1 = 255; s2 = 255 }

abbrev pub min_detection_threshold : ℕ
min_detection_threshold = 20

-- A word of a text line: a label, or a number, in a width and at a side.
pub data Word : Type 0 where
  label : (left : Bool) (width : ℕ) (text : List ℕ) → Word
  number : (left : Bool) (width : ℕ) (value : ℤ) → Word

-- What is drawn over the picture, in order; points are (x, y), colours blue, green, red.
pub data Drawing : Type 0 where
  blend_mask : (x y width height : ℕ) → Drawing
  rectangle : (from to : ℕ × ℕ) → Scalar → Drawing
  line : (from to : ℕ × ℕ) → Scalar → Drawing
  circle : (at : ℕ × ℕ) (radius : ℕ) → Scalar → Drawing
  text : (at : ℕ × ℕ) → List Word → Scalar → Drawing

abbrev color : ℕ → ℕ → ℕ → Scalar
color b g r = record { s0 = b; s1 = g; s2 = r }

-- The scan line in red, with a dot, if enough of it was seen.
pub draw_center : (centerline_x total_pixels : ℕ) → List Drawing
draw_center x total =
    if leb min_detection_threshold total
    then line (x, scan_y) (x, scan_y + scan_height) (color 0 0 255)
      ∷ circle (x, scan_y + scan_height / 2) 4 (color 0 0 255)
      ∷ []
    else []

-- "Center:", "Pixels:", "Error:" and " px"
abbrev center_label : List ℕ
center_label = b'C' ∷ b'e' ∷ b'n' ∷ b't' ∷ b'e' ∷ b'r' ∷ b':' ∷ []

abbrev pixels_label : List ℕ
pixels_label = b'P' ∷ b'i' ∷ b'x' ∷ b'e' ∷ b'l' ∷ b's' ∷ b':' ∷ []

abbrev error_label : List ℕ
error_label = b'E' ∷ b'r' ∷ b'r' ∷ b'o' ∷ b'r' ∷ b':' ∷ []

abbrev px_label : List ℕ
px_label = b' ' ∷ b'p' ∷ b'x' ∷ []

-- `diagnostic_display`, for a mask of this size and a picture with `cols` columns. The result is then scaled and shown.
pub diagnostic_display : (mask_cols mask_rows cols centerline_x total_pixels : ℕ) → List Drawing
unfolding draw_center
diagnostic_display mask_cols mask_rows cols x total =
    let target_x = cols / 2 in
    let error = pos x -ℤ pos target_x in
    (blend_mask 0 scan_y mask_cols mask_rows
      ∷ rectangle (0, scan_y) (cols - 1, scan_y + scan_height - 1) (color 255 255 0)
      ∷ [])
    ++ (draw_center x total
        ++ (line (target_x, scan_y) (target_x, scan_y + scan_height) (color 255 0 255)
            ∷ text (5, 10)
                (label true 8 center_label
                  ∷ number false 4 (pos x)
                  ∷ label true 1 (b' ' ∷ [])
                  ∷ label true 8 pixels_label
                  ∷ number false 4 (pos total)
                  ∷ [])
                (color 255 0 0)
            ∷ text (5, 20)
                (label true 8 error_label ∷ number false 4 error ∷ label false 3 px_label ∷ [])
                (if ltb_ℤ error (pos 0) then color 255 0 0 else color 0 0 255)
            ∷ []))

module _ (v : Vision) where
  open v use {Picture, Mask, rows, cols, mask_rows, mask_cols}

  -- `src_img(cv::Rect(0, SCAN_Y, src_img.cols, SCAN_HEIGHT))`: OpenCV throws if that is not inside.
  scan_line : Picture → Run Picture
  scan_line src =
      require (leb (scan_y + scan_height) (rows src)) cv_error
      >> ok (v.slice scan_y scan_height src)

  -- The position of the line, the pixels of it, and the mask.
  pub get_i_color : Picture → Run (ℕ × ℕ × Mask)
  unfolding scan_line
  get_i_color src = do
    scan ← scan_line src
    let mask = v.in_range color_threshold_low color_threshold_high (v.to_hsv scan)
    let mask' = v.opening (v.close mask)
    let (max_val, max_x) = v.max_loc (v.column_sums mask')
    ok (max_x, max_val / 255, mask')

  -- `update`, with the drawings that it shows; `m_input` is null if `run` was
  -- given null.
  unfoldable pub update : Option Picture → Run (List Drawing)
  unfolding get_i_color diagnostic_display
  update m_input = do
    frame ← the m_input null_deref
    if v.empty frame then ok [] else do
      (centerline_x, total_pixels, mask) ← get_i_color frame
      ok (
          diagnostic_display (mask_cols mask) (mask_rows mask) (cols frame) centerline_x
            total_pixels)
