-- ===== src/Application.antt =====
-- app/main.cpp, `main`: the directory of pictures from the environment, the camera of its files, the other
-- parts, and the frames. The environment and the file system are parameters.
pub mod Frames
use donkeycar_gt.Prelude.{ℕ, Bool, List, [], ◌∷◌, Option, none, some, true, false, if◌then◌else◌}
use donkeycar_gt.Run.{Run, ok, fault, exits, ◌>>=◌}
use donkeycar_gt.Store.{Store}
use donkeycar_gt.Vehicle.{Vehicle, start_blocking}
use donkeycar_gt.Parts.Files.{Name}
use donkeycar_gt.Parts.Vision.{Vision}
use donkeycar_gt.Parts.ImageListCamera.{construct}
use donkeycar_gt.Parts.Pipeline.{main_parts, main_vehicle}

-- What is called of the system: `std::getenv`, `fs::canonical`, the names that `fs::directory_iterator` finds
-- in a path, in any order, and `std::sort`. All but the first throw if they fail.
pub record Platform : Type 0 where
  pub getenv : Name → Option Name
  pub canonical : Name → Run Name
  pub directory : Name → Run (List Name)
  pub sort : (Name → Name → Run Bool) → List Name → Run (List Name)

-- "DK_TUB_IMAGE_PATH"
abbrev pub env_key : Name
env_key =
    b'D' ∷ b'K' ∷ b'_' ∷ b'T' ∷ b'U' ∷ b'B' ∷ b'_' ∷ b'I' ∷ b'M' ∷ b'A' ∷ b'G' ∷ b'E' ∷ b'_' ∷ b'P'
    ∷ b'A' ∷ b'T' ∷ b'H' ∷ []

abbrev or_empty : Option Name → Name
or_empty none = []
or_empty (some val) = val

pub get_env_var : Platform → Name → Name
get_env_var platform key = or_empty (platform.getenv key)

abbrev is_empty : Name → Bool
is_empty [] = true
is_empty (c ∷ name) = false

module _ (v : Vision) (store : Store v.Picture) (platform : Platform) where
  -- `main` over the memory that the constructor of the vehicle makes, with the signals of the frames; the
  -- result says whether the loop has ended.
  unfoldable pub main : store.State → List (ℕ × Bool) → Run (Vehicle (main_parts v) store × Bool)
  unfolding get_env_var
  main s signals =
      let tub_image_path = get_env_var platform env_key in
      if is_empty tub_image_path then fault exits else do
        path ← platform.canonical tub_image_path
        entries ← platform.directory path
        file_cam ← construct v platform.sort path entries
        start_blocking (main_parts v) store signals (main_vehicle v store s file_cam)
