-- ===== src/Parts/ImageListCamera/Cycle.antt =====
-- src/parts/image-list-camera.cpp, `update`: which picture the camera shows after so many updates.
use native.Mathlib.Nat.{mod-lt, suc-mod}
use donkeycar_gt.Prelude.{
  ℕ, zero, suc, ◌+◌, ◌%◌, ◌<◌, ◌≡◌, refl, List, [], ◌∷◌, some, length, get_elem?, ◌⊎◌, inl, inr,
  Bool-cases, ltb, ltb→lt, arith, ◌∙◌, ap, sym,
}
use donkeycar_gt.Run.{ok}
use donkeycar_gt.Parts.Files.{Name}
use donkeycar_gt.Parts.Vision.{Vision}
use donkeycar_gt.Parts.ImageListCamera.{ImageListCamera, new_camera, update, updates}

get_elem?-some {ℓ} :
    {A : Type ℓ} (xs : List A) (i : ℕ) → i < length xs → (a : A) × (get_elem? xs i ≡ some a)
get_elem?-some [] i h = elim h [ ]
get_elem?-some (x ∷ xs) zero h = (x, refl)
get_elem?-some (x ∷ xs) (suc i) h = get_elem?-some xs i (omega arith)

module _ (v : Vision) where
  open v use {Picture, no_picture, imread}

  abbrev pub at_frame : List Name → ℕ → Picture → ImageListCamera v
  at_frame names i img = record {
    m_image_filenames = names;
    m_num_images = length names;
    m_frame_i = i;
    frame = img;
  }

  pub update-at_frame :
      (names : List Name) (i j : ℕ) (img : Picture) (name : Name)
      → 0 < length names
      → (i + 1) % length names ≡ j
      → get_elem? names j ≡ some name
      → update v (at_frame names i img) ≡ ok (at_frame names j (imread name))
  unfolding update
  update-at_frame names i j img name some_image turn here = ground arith

  -- The camera shows the pictures of the directory in turn, for ever: after k updates, k at least 1,
  -- the frame is the picture with the index k modulo their number. So a new camera shows the picture
  -- with the index 1 first and that with the index 0 last in each turn, and no index is out of range.
  pub updates-cycle :
      (names : List Name) (k : ℕ)
      → 0 < length names
      → (name : Name) × (get_elem? names (suc k % length names) ≡ some name)
        × (updates v (suc k) (new_camera v names)
            ≡ ok (at_frame names (suc k % length names) (imread name)))
  unfolding updates new_camera
  updates-cycle names zero some_image =
      let (name, here) = get_elem?-some names (1 % length names) (mod-lt 1 some_image) in
      (name, here, update-at_frame names 0 (1 % length names) no_picture name some_image refl here)
  updates-cycle names (suc k) some_image =
      let n = length names in
      let (shown, _, before) = updates-cycle names k some_image in
      let (name, here) = get_elem?-some names (suc (suc k) % n) (mod-lt (suc (suc k)) some_image) in
      let turn : (suc k % n + 1) % n ≡ suc (suc k) % n =
        ap (λ j. j % n) (omega arith) ∙ sym (suc-mod (suc k) n) in
      let step =
        update-at_frame names (suc k % n) (suc (suc k) % n) (imread shown) name some_image turn
          here in
      (name, here, rw before step)

  -- A camera that counts its names right shows one of them, or keeps its frame if there is none.
  pub update-in_range :
      (c : ImageListCamera v)
      → c.m_num_images ≡ length c.m_image_filenames
      → (c' : ImageListCamera v) × (update v c ≡ ok c')
        × (c'.m_image_filenames ≡ c.m_image_filenames)
        × (c'.m_num_images ≡ c.m_num_images)
        × ((c'.frame ≡ c.frame)
            ⊎ ((i : ℕ) × (name : Name) × (get_elem? c.m_image_filenames i ≡ some name)
                × (c'.frame ≡ imread name)))
  unfolding update
  update-in_range c count = elim (Bool-cases (ltb 0 c.m_num_images)) [
    | inl some_image ↦
        let i = (c.m_frame_i + 1) % c.m_num_images in
        let small : i < c.m_num_images =
          mod-lt (c.m_frame_i + 1) (ltb→lt 0 c.m_num_images some_image) in
        let (name, here) = get_elem?-some c.m_image_filenames i (omega arith) in
        (
          record c { m_frame_i = i; frame = imread name },
          rw (some_image, here) refl,
          refl,
          refl,
          inr (i, name, here, refl),
        )
    | inr nothing ↦ (c, rw nothing refl, refl, refl, inl refl)
  ]
