-- ===== src/Parts/ImageListCamera.antt =====
-- include/parts/image-list-camera.h and src/parts/image-list-camera.cpp: the camera that shows the
-- pictures of a directory. An `int` that counts the pictures is a number: a directory with 2 ^ 31
-- pictures is left out.
pub mod Cycle
use donkeycar_gt.Prelude.{
  ℕ, zero, suc, ◌+◌, ◌%◌, ◌≡◌, Bool, List, Option, ltb, if◌then◌else◌, length, get_elem?,
}
use donkeycar_gt.Run.{Run, ok, dangling, the, ◌>>=◌}
use donkeycar_gt.Parts.Files.{Name, image_filenames}
use donkeycar_gt.Parts.Vision.{Vision}

module _ (v : Vision) where
  open v use {Picture, no_picture, imread}

  pub record ImageListCamera : Type 0 where
    pub m_image_filenames : List Name
    pub m_num_images : ℕ
    pub m_frame_i : ℕ
    pub frame : Picture  -- m_output->frame()

  -- What the constructor leaves behind, for the file names that it found.
  unfoldable pub new_camera : List Name → ImageListCamera
  new_camera names = record {
    m_image_filenames = names;
    m_num_images = length names;
    m_frame_i = 0;
    frame = no_picture;
  }

  -- The constructor, for the entries of the directory.
  unfoldable pub construct :
      ((Name → Name → Run Bool) → List Name → Run (List Name))
      → Name
      → List Name
      → Run ImageListCamera
  unfolding new_camera
  construct sort base entries = do names ← image_filenames sort base entries; ok (new_camera names)

  -- The branch with a picture to show. An index out of range is undefined behaviour.
  next : ImageListCamera → Run ImageListCamera
  next c =
      let i = (c.m_frame_i + 1) % c.m_num_images in
      the (get_elem? c.m_image_filenames i) dangling >>= λ name.
      ok (record c { m_frame_i = i; frame = imread name })

  -- `update` after its sleep.
  unfoldable pub update : ImageListCamera → Run ImageListCamera
  unfolding next
  update c = if ltb 0 c.m_num_images then next c else ok c

  unfoldable pub updates : ℕ → ImageListCamera → Run ImageListCamera
  unfolding update
  updates zero c = ok c
  updates (suc k) c = updates k c >>= update
