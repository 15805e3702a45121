-- ===== src/Parts/LineFollower/Update.antt =====
-- src/parts/line-follower.cpp: on which pictures `update` comes to an end.
use donkeycar_gt.Prelude.{
  ℕ, ◌+◌, ◌≤◌, ◌<◌, ◌≡◌, refl, ◌⊎◌, inl, inr, true, List, [], some, arith, Bool-cases,
}
use donkeycar_gt.Run.{ok, fault, cv_error, Run-cases}
use donkeycar_gt.Parts.Vision.{Vision}
use donkeycar_gt.Parts.LineFollower.{
  Drawing, scan_y, scan_height, scan_line, get_i_color, diagnostic_display, update,
}

module _ (v : Vision) where
  open v use {Picture, rows, empty}

  -- A picture that holds nothing, or is tall enough for the scan.
  abbrev pub IsUsable : Picture → Type 0
  IsUsable img = (empty img ≡ true) ⊎ (scan_y + scan_height ≤ rows img)

  pub get_i_color-ok :
      (img : Picture)
      → scan_y + scan_height ≤ rows img
      → (r : ℕ × ℕ × v.Mask) × (get_i_color v img ≡ ok r)
  unfolding get_i_color scan_line
  get_i_color-ok img tall = elim (Run-cases (get_i_color v img)) [
    | inl found ↦ found
    | inr (e, failed) ↦ ground arith
  ]

  -- The rectangle of the scan is not inside a picture with fewer rows.
  pub get_i_color-low :
      (img : Picture) → rows img < scan_y + scan_height → get_i_color v img ≡ fault cv_error
  unfolding get_i_color scan_line
  get_i_color-low img low = ground arith

  pub update-ok :
      (img : Picture) → IsUsable img → (shown : List Drawing) × (update v (some img) ≡ ok shown)
  unfolding update
  update-ok img usable = elim (Bool-cases (empty img)) [
    | inl nothing ↦ ([], ground arith)
    | inr seen ↦
        let tall : scan_y + scan_height ≤ rows img = elim usable [
          | inl nothing ↦ cc
          | inr tall ↦ tall
        ] in
        let ((x, total, mask), found) = get_i_color-ok img tall in
        (
          diagnostic_display (v.mask_cols mask) (v.mask_rows mask) (v.cols img) x total,
          rw (seen, found) refl,
        )
  ]
