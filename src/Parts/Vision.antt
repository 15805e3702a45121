-- ===== src/Parts/Vision.antt =====
-- What src/parts calls of OpenCV: pictures, masks and the drawing of diagnostics.
use donkeycar_gt.Prelude.{ℕ, ◌*◌, ◌≤◌, ◌<◌, ◌≡◌, Bool, List, some, length, get_elem?}
use donkeycar_gt.Parts.Files.{Name}

-- A colour or a threshold, `cv::Scalar`.
pub record Scalar : Type 0 where
  pub s0 : ℕ
  pub s1 : ℕ
  pub s2 : ℕ

-- `cv::Mat` as a picture in colours, and as a mask with one byte for each pixel.
pub record Vision : Type 1 where
  pub Picture : Type 0
  pub no_picture : Picture
  pub empty : Picture → Bool
  pub rows : Picture → ℕ
  pub cols : Picture → ℕ
  pub imread : Name → Picture
  -- the rows from `y` on, `height` many, of all columns
  pub slice : (y height : ℕ) → Picture → Picture
  pub to_hsv : Picture → Picture
  pub resize : (cols rows : ℕ) → Picture → Picture
  pub Mask : Type 0
  pub mask_rows : Mask → ℕ
  pub mask_cols : Mask → ℕ
  pub in_range : (low high : Scalar) → Picture → Mask
  pub close : Mask → Mask
  pub opening : Mask → Mask
  -- `cv::reduce` by REDUCE_SUM over the rows: a sum for each column
  pub column_sums : Mask → List ℕ
  -- `cv::minMaxLoc`: a greatest entry, and where it stands
  pub max_loc : List ℕ → ℕ × ℕ

-- The documented behaviour that get_i_color relies on. A mask has the size of its picture, and its
-- bytes are 0 or 255, so that a column's sum is at most 255 for each row.
pub record IsVision (v : Vision) : Type 0 where
  pub slice_size :
      (y height : ℕ) (img : v.Picture)
      → (v.rows (v.slice y height img) ≡ height) × (v.cols (v.slice y height img) ≡ v.cols img)
  pub to_hsv_size :
      (img : v.Picture)
      → (v.rows (v.to_hsv img) ≡ v.rows img) × (v.cols (v.to_hsv img) ≡ v.cols img)
  pub in_range_size :
      (low high : Scalar) (img : v.Picture)
      → (v.mask_rows (v.in_range low high img) ≡ v.rows img)
        × (v.mask_cols (v.in_range low high img) ≡ v.cols img)
  pub close_size :
      (m : v.Mask)
      → (v.mask_rows (v.close m) ≡ v.mask_rows m) × (v.mask_cols (v.close m) ≡ v.mask_cols m)
  pub opening_size :
      (m : v.Mask)
      → (v.mask_rows (v.opening m) ≡ v.mask_rows m) × (v.mask_cols (v.opening m) ≡ v.mask_cols m)
  pub column_sums_length : (m : v.Mask) → length (v.column_sums m) ≡ v.mask_cols m
  pub column_sums_le :
      (m : v.Mask) (x s : ℕ) → get_elem? (v.column_sums m) x ≡ some s → s ≤ 255 * v.mask_rows m
  pub max_loc_greatest :
      (xs : List ℕ)
      → 0 < length xs
      → (get_elem? xs (v.max_loc xs).1 ≡ some (v.max_loc xs).0)
        × ((i x : ℕ) → get_elem? xs i ≡ some x → x ≤ (v.max_loc xs).0)
