-- ===== src/Tests/Pictures.antt =====
-- src/parts on concrete pictures: a picture of stripes, each of which is in the colours of the line or not.
use donkeycar_gt.Prelude.{
  ◌==◌, replicate, ◌+◌, ℕ, zero, suc, ◌*◌, ◌/◌, ◌%◌, ◌≤◌, ◌<◌, ◌≡◌, refl, ◌≢◌, ◌↔◌, Bool, true,
  false, some, List, [], ◌∷◌, arith, inr, length, get_elem?, if◌then◌else◌, leb, ap,
}
use donkeycar_gt.Run.{ok}
use donkeycar_gt.Parts.Files.{Name}
use donkeycar_gt.Parts.Vision.{Vision, IsVision}
use donkeycar_gt.Parts.LineFollower.{Drawing, get_i_color, draw_center, scan_height, update}
use donkeycar_gt.Parts.LineFollower.Drawn.{Inside, update-Inside}
use donkeycar_gt.Prelude.Relations.{All}
use donkeycar_gt.Parts.LineFollower.Detection.{get_i_color_bounds}
use donkeycar_gt.Parts.ImageListCamera.{new_camera, updates}
use donkeycar_gt.Parts.Files.{select_images, match}
use donkeycar_gt.Parts.WebCamera as web
use donkeycar_gt.Parts.WebCamera.Pace.{updates-pace, shown, no_output, new_web_camera-IsSound}
use donkeycar_gt.Parts.WebCamera.Sharing.{output, latest, paced, updates-output}
use donkeycar_gt.Store.{Store}
use donkeycar_gt.Memory.Laws.{memory_store}
use donkeycar_gt.Tests.Owners.{owners, free}
use donkeycar_gt.Parts.LineFollower.Update.{IsUsable}
use donkeycar_gt.Parts.ImageListCamera.Cycle.{updates-cycle, at_frame}

-- The height and the stripes, the widths of which are 1.
abbrev pub Stripes : Type 0
Stripes = ℕ × List Bool

pub column_sums : (height : ℕ) → List Bool → List ℕ
column_sums height [] = []
column_sums height (b ∷ bs) = (if b then 255 * height else 0) ∷ column_sums height bs

pub max_loc : List ℕ → ℕ × ℕ
max_loc [] = (0, 0)
max_loc (x ∷ xs) = let (m, i) = max_loc xs in if leb m x then (x, 0) else (m, suc i)

abbrev pub stripes : Vision
stripes = record {
  Picture = Stripes;
  no_picture = (0, []);
  empty = λ img. leb img.0 0;
  rows = λ img. img.0;
  cols = λ img. length img.1;
  imread = λ name. (120 + length name, true ∷ []);
  slice = λ y height img. (height, img.1);
  to_hsv = λ img. img;
  resize = λ cols rows img. (rows, replicate cols true);
  Mask = Stripes;
  mask_rows = λ img. img.0;
  mask_cols = λ img. length img.1;
  in_range = λ low high img. img;
  close = λ img. img;
  opening = λ img. img;
  column_sums = λ img. column_sums img.0 img.1;
  max_loc = max_loc;
}

column_sums-length : (h : ℕ) (bs : List Bool) → length (column_sums h bs) ≡ length bs
unfolding column_sums
column_sums-length h [] = refl
column_sums-length h (b ∷ bs) = ap suc (column_sums-length h bs)

column_sums-small :
    (h : ℕ) (bs : List Bool) (x s : ℕ) → get_elem? (column_sums h bs) x ≡ some s → s ≤ 255 * h
unfolding column_sums
column_sums-small h [] x s e = cc
column_sums-small h (true ∷ bs) zero s e = ground arith
column_sums-small h (false ∷ bs) zero s e = ground arith
column_sums-small h (b ∷ bs) (suc x) s e = column_sums-small h bs x s e

max_loc-here :
    (x : ℕ) (xs : List ℕ) → get_elem? (x ∷ xs) (max_loc (x ∷ xs)).1 ≡ some (max_loc (x ∷ xs)).0
unfolding max_loc
max_loc-here x [] = ground arith
max_loc-here x (y ∷ ys) = ground (arith, max_loc-here y ys)

max_loc-greatest : (xs : List ℕ) (i x : ℕ) → get_elem? xs i ≡ some x → x ≤ (max_loc xs).0
unfolding max_loc
max_loc-greatest [] i x e = cc
max_loc-greatest (y ∷ ys) zero x e = ground arith
max_loc-greatest (y ∷ ys) (suc i) x e = ground (arith, max_loc-greatest ys i x e)

max_loc-found : (xs : List ℕ) → 0 < length xs → get_elem? xs (max_loc xs).1 ≡ some (max_loc xs).0
max_loc-found [] h = elim h [ ]
max_loc-found (x ∷ xs) h = max_loc-here x xs

stripes-IsVision : IsVision stripes
stripes-IsVision = record {
  slice_size = λ y height img. (refl, refl);
  to_hsv_size = λ img. (refl, refl);
  in_range_size = λ low high img. (refl, refl);
  close_size = λ m. (refl, refl);
  opening_size = λ m. (refl, refl);
  column_sums_length = λ m. column_sums-length m.0 m.1;
  column_sums_le = λ m. column_sums-small m.0 m.1;
  max_loc_greatest = λ xs h. (max_loc-found xs h, max_loc-greatest xs);
}

abbrev pub road : Stripes
road = (240, false ∷ true ∷ false ∷ [])

get_i_color_bounds_example :
    (x : ℕ) × (s : ℕ) × (mask : Stripes) × (get_i_color stripes road ≡ ok (x, s / 255, mask))
    × (x < 3)
    × (s / 255 ≤ scan_height)
    × (get_elem? (stripes.column_sums mask) x ≡ some s)
    × ((j r : ℕ) → get_elem? (stripes.column_sums mask) j ≡ some r → r ≤ s)
    × ((draw_center x (s / 255) ≢ []) ↔ (s ≡ 255 * scan_height))
get_i_color_bounds_example =
    get_i_color_bounds stripes stripes-IsVision road (omega arith) (omega arith)

abbrev files : List Name
files = (b'a' ∷ []) ∷ (b'b' ∷ b'b' ∷ []) ∷ (b'c' ∷ []) ∷ []

updates-cycle_example :
    (name : Name) × (get_elem? files (3 % 3) ≡ some name)
    × (updates stripes 3 (new_camera stripes files)
        ≡ ok (at_frame stripes files (3 % 3) (stripes.imread name)))
updates-cycle_example = updates-cycle stripes files 2 (omega arith)

abbrev pub kept : Store Stripes
kept = memory_store owners true 1 Stripes

pub fresh : kept.State
unfolding memory_store
fresh = (record { m_mutex = 5; m_data = [] }, free)

pub fresh_ready : kept.Ready fresh
unfolding fresh memory_store
fresh_ready = λ t' ne. refl

files-IsUsable :
    (i : ℕ) (name : Name) → get_elem? files i ≡ some name → IsUsable stripes (stripes.imread name)
files-IsUsable i name e = inr (omega arith)

abbrev directory : List Name
directory = (b'1' ∷ b'_' ∷ match) ∷ (b'm' ∷ []) ∷ match ∷ []

selected : select_images directory ≡ (b'1' ∷ b'_' ∷ match) ∷ match ∷ []
unfolding select_images
selected = refl

-- Six stripes, the fourth of them in the colours of the line.
abbrev lane : Stripes
lane = (240, false ∷ false ∷ false ∷ true ∷ false ∷ false ∷ [])

update-Inside_example :
    (shown : List Drawing) × (update stripes (some lane) ≡ ok shown) × All (Inside 6 240) shown
update-Inside_example = update-Inside stripes stripes-IsVision lane refl (omega arith) (omega arith)

abbrev captures : List (Stripes × ℕ)
captures = (road, 40_000_000) ∷ (road, 60_000_000) ∷ ((0, []), 90_000_000) ∷ (road, 95_000_000) ∷ []

updates-pace_example :
    let c = web.new_web_camera stripes in
    (c.m_last_frame + 34_000_000 * shown stripes true captures c
      ≤ (web.updates stripes true captures c).m_last_frame)
    × (no_output stripes (web.updates stripes true captures c)
        ≡ (if shown stripes true captures c == 0 then no_output stripes c else false))
updates-pace_example =
    updates-pace stripes true captures (web.new_web_camera stripes) (new_web_camera-IsSound stripes)

-- Another picture of the size of the first, 20 ms after it.
abbrev dark : Stripes
dark = (240, false ∷ false ∷ false ∷ [])

updates-output_example :
    output stripes (
      web.updates stripes true
        ((road, 40_000_000) ∷ (dark, 60_000_000) ∷ [])
        (web.new_web_camera stripes))
    ≡ (if true
        then latest stripes ((dark, 60_000_000) ∷ []) road
        else paced stripes ((dark, 60_000_000) ∷ []) 40_000_000 road)
updates-output_example =
    updates-output stripes true road 40_000_000 ((dark, 60_000_000) ∷ []) (omega arith)
      ((refl, refl, refl), ((refl, refl, refl), tt))

overwritten :
    output stripes (
      web.updates stripes true
        ((road, 40_000_000) ∷ (dark, 60_000_000) ∷ [])
        (web.new_web_camera stripes))
    ≡ dark
unfolding web.updates web.update web.capture web.show_frame web.new_web_camera
overwritten = refl

kept_apart :
    output stripes (
      web.updates stripes false
        ((road, 40_000_000) ∷ (dark, 60_000_000) ∷ [])
        (web.new_web_camera stripes))
    ≡ road
unfolding web.updates web.update web.capture web.show_frame web.new_web_camera
kept_apart = refl
