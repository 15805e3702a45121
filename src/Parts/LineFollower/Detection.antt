-- ===== src/Parts/LineFollower/Detection.antt =====
-- src/parts/line-follower.cpp: what `get_i_color` finds, and when the line is drawn.
use donkeycar_gt.Prelude.{
  ℕ, zero, suc, ◌≢◌, ◌+◌, ◌*◌, ◌/◌, ◌≤◌, ◌<◌, ◌≡◌, ◌↔◌, Bool, List, [], ◌∷◌, some, length,
  get_elem?, arith,
}
use mathlib.Core.Path.{◌∙◌}
use donkeycar_gt.Run.{ok, fault, cv_error}
use donkeycar_gt.Parts.Vision.{Vision, IsVision}
use donkeycar_gt.Parts.LineFollower.{
  scan_y, scan_height, color_threshold_low, color_threshold_high, get_i_color, draw_center, update,
}

get_elem?-lt {ℓ} :
    {A : Type ℓ} (xs : List A) (i : ℕ) (a : A) → get_elem? xs i ≡ some a → i < length xs
get_elem?-lt [] i a e = cc
get_elem?-lt (x ∷ xs) zero a e = omega arith
get_elem?-lt (x ∷ xs) (suc i) a e = omega (arith, get_elem?-lt xs i a e)

drawn-full :
    (x s : ℕ) → s ≤ 255 * scan_height → draw_center x (s / 255) ≢ [] → s ≡ 255 * scan_height
unfolding draw_center
drawn-full x s small drawn = ground arith

full-drawn : (x s : ℕ) → s ≡ 255 * scan_height → draw_center x (s / 255) ≢ []
unfolding draw_center
full-drawn x s full = ground arith

module _ (v : Vision) (is : IsVision v) where
  open v use {Picture, Mask, rows, cols}

  abbrev pub mask_of : Picture → Mask
  mask_of src = v.opening (
      v.close (
        v.in_range color_threshold_low color_threshold_high
          (v.to_hsv (v.slice scan_y scan_height src))))

  pub mask_of-size :
      (src : Picture)
      → (v.mask_rows (mask_of src) ≡ scan_height) × (v.mask_cols (mask_of src) ≡ cols src)
  mask_of-size src =
      let scan = v.slice scan_y scan_height src in
      let hsv = v.to_hsv scan in
      let m = v.in_range color_threshold_low color_threshold_high hsv in
      (
        (is.opening_size (v.close m)).0
            ∙ (is.close_size m).0
            ∙ (is.in_range_size _ _ hsv).0
            ∙ (is.to_hsv_size scan).0
            ∙ (is.slice_size scan_y scan_height src).0,
        (is.opening_size (v.close m)).1
            ∙ (is.close_size m).1
            ∙ (is.in_range_size _ _ hsv).1
            ∙ (is.to_hsv_size scan).1
            ∙ (is.slice_size scan_y scan_height src).1,
      )

  pub get_i_color-tall :
      (src : Picture)
      → scan_y + scan_height ≤ rows src
      → get_i_color v src
        ≡ ok (
          (v.max_loc (v.column_sums (mask_of src))).1,
          (v.max_loc (v.column_sums (mask_of src))).0 / 255,
          mask_of src,
        )
  unfolding get_i_color
  get_i_color-tall src tall = ground arith

  -- In a picture with 120 rows or more and at least one column, the line is found at a column of the
  -- picture that no other column of the mask beats, with the pixels of that column and at most 20 of
  -- them, the height of the scan. As 20 is the threshold too, the line is drawn exactly if that column
  -- of the mask is white all over.
  pub get_i_color_bounds :
      (src : Picture)
      → scan_y + scan_height ≤ rows src
      → 0 < cols src
      → (x : ℕ) × (s : ℕ) × (mask : Mask) × (get_i_color v src ≡ ok (x, s / 255, mask))
        × (x < cols src)
        × (s / 255 ≤ scan_height)
        × (get_elem? (v.column_sums mask) x ≡ some s)
        × ((j r : ℕ) → get_elem? (v.column_sums mask) j ≡ some r → r ≤ s)
        × ((draw_center x (s / 255) ≢ []) ↔ (s ≡ 255 * scan_height))
  unfolding draw_center
  get_i_color_bounds src tall wide =
      let (height, width) = mask_of-size src in
      let sums = v.column_sums (mask_of src) in
      let as_wide : length sums ≡ cols src = is.column_sums_length (mask_of src) ∙ width in
      let (here, greatest) = is.max_loc_greatest sums (omega (arith, as_wide)) in
      let s = (v.max_loc sums).0 in
      let x = (v.max_loc sums).1 in
      let small : s ≤ 255 * scan_height = rw height at (is.column_sums_le (mask_of src) x s here) in
      (
        x,
        s,
        mask_of src,
        get_i_color-tall src tall,
        omega (arith, get_elem?-lt sums x s here, as_wide),
        omega arith,
        here,
        greatest,
        (λ drawn. drawn-full x s small drawn, λ full. full-drawn x s full),
      )

module _ (v : Vision) where
  open v use {Picture, rows}

  -- A picture that holds something, with fewer than 120 rows, makes `update` throw.
  pub low_picture_throws :
      (src : Picture)
      → v.empty src ≡ Bool.false
      → rows src < scan_y + scan_height
      → update v (some src) ≡ fault cv_error
  unfolding update
  low_picture_throws src seen low = ground arith
