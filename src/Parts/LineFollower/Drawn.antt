-- ===== src/Parts/LineFollower/Drawn.antt =====
-- src/parts/line-follower.cpp, `diagnostic_display`: where the drawings of `update` are.
use donkeycar_gt.Prelude.{
  ℕ, ◌+◌, ◌/◌, ◌≤◌, ◌<◌, ◌≡◌, refl, sym, ap, ◌∙◌, false, List, [], ◌∷◌, ◌++◌, some, leb, arith,
  Bool-cases, inl, inr,
}
use donkeycar_gt.Prelude.Relations.{All}
use donkeycar_gt.Run.{ok, ok-injective}
use donkeycar_gt.Parts.Vision.{Vision, IsVision}
use donkeycar_gt.Parts.LineFollower.{
  Drawing, blend_mask, rectangle, line, circle, text, scan_y, scan_height, min_detection_threshold,
  diagnostic_display, draw_center, update,
}
use donkeycar_gt.Parts.LineFollower.Detection.{
  get_i_color_bounds, get_i_color-tall, mask_of, mask_of-size,
}

-- A drawing over a picture of this size: a line is upright, with its end in the row below the last one
-- at most; a circle has its centre in a column of the picture and is in its rows all over; a text begins
-- in the picture.
abbrev pub Inside : (cols rows : ℕ) → Drawing → Type 0
Inside cols rows (blend_mask x y width height) = (x + width ≤ cols) × (y + height ≤ rows)
Inside cols rows (rectangle (x, y) (x', y') c) = (x ≤ x') × (x' < cols) × (y ≤ y') × (y' < rows)
Inside cols rows (line (x, y) (x', y') c) = (x ≡ x') × (x < cols) × (y < y') × (y' ≤ rows)
Inside cols rows (circle (x, y) radius c) = (x < cols) × (radius ≤ y) × (y + radius < rows)
Inside cols rows (text (x, y) words c) = (x < cols) × (y < rows)

All-++ : {X : Type 0} (Q : X → Type 0) (xs ys : List X) → All Q xs → All Q ys → All Q (xs ++ ys)
All-++ Q [] ys _ h = h
All-++ Q (x ∷ xs) ys (first, rest) h = (first, All-++ Q xs ys rest h)

draw_center-Inside :
    (cols rows x total : ℕ)
    → scan_y + scan_height ≤ rows
    → x < cols
    → All (Inside cols rows) (draw_center x total)
unfolding draw_center
draw_center-Inside cols rows x total tall here =
    elim (Bool-cases (leb min_detection_threshold total)) [
      | inl enough ↦
          rw enough ((refl, here, omega arith, tall), ((here, omega arith, omega arith), tt))
      | inr few ↦ rw few tt
    ]

diagnostic_display-Inside :
    (cols rows x total : ℕ)
    → scan_y + scan_height ≤ rows
    → 5 < cols
    → x < cols
    → All (Inside cols rows) (diagnostic_display cols scan_height cols x total)
unfolding diagnostic_display
diagnostic_display-Inside cols rows x total tall wide here = (
  (omega arith, tall),
  (
    (omega arith, omega arith, omega arith, omega arith),
    All-++ (Inside cols rows) (draw_center x total) _
        (draw_center-Inside cols rows x total tall here)
        (
          (refl, omega arith, omega arith, tall),
          ((omega arith, omega arith), ((omega arith, omega arith), tt)),
        ),
  ),
)

module _ (v : Vision) (is : IsVision v) where
  open v use {Picture, rows, cols, empty}

  -- A picture that is not empty, with 120 rows or more and at least 6 columns, is shown, and each drawing
  -- is in its rows and columns: the region of the mask and the rectangle are; an upright line is but for
  -- its end, which may be in the row below the picture; a circle has its centre in it and reaches over
  -- no row; and a text begins in it.
  pub update-Inside :
      (img : Picture)
      → empty img ≡ false
      → scan_y + scan_height ≤ rows img
      → 5 < cols img
      → (shown : List Drawing) × (update v (some img) ≡ ok shown)
        × All (Inside (cols img) (rows img)) shown
  unfolding update
  update-Inside img seen tall wide =
      let (x, s, mask, found, here, _, _, _, _) = get_i_color_bounds v is img tall (omega arith) in
      let same : mask ≡ mask_of v is img =
        ap (λ r. r.2) (ok-injective _ _ (sym found ∙ get_i_color-tall v is img tall)) in
      let (height, width) = mask_of-size v is img in
      let as_high : v.mask_rows mask ≡ scan_height = ap v.mask_rows same ∙ height in
      let as_wide : v.mask_cols mask ≡ cols img = ap v.mask_cols same ∙ width in
      (
        diagnostic_display (v.mask_cols mask) (v.mask_rows mask) (cols img) x (s / 255),
        rw (seen, found) refl,
        rw (as_high, as_wide)
            (diagnostic_display-Inside (cols img) (rows img) x (s / 255) tall wide here),
      )
