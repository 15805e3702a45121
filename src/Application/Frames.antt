-- ===== src/Application/Frames.antt =====
-- app/main.cpp, `main`, for a directory of pictures with a number in front of each name.
use mathlib.Core.List.{Mem, Memᴰ, Perm}
use mathlib.Core.List.Perm
use donkeycar_gt.Prelude.{
  ℕ, ◌≡◌, refl, Bool, true, List, [], ◌∷◌, ◌++◌, none, some, inl, inr, ◌⊎◌, get_elem?,
}
use donkeycar_gt.Prelude.Relations.{All}
use donkeycar_gt.Prelude.Int.{ℤ}
use donkeycar_gt.Run.{ok, fault, exits}
use donkeycar_gt.Store.{Store}
use donkeycar_gt.Vehicle.{Vehicle}
use donkeycar_gt.Vehicle.Running.{any_signal, frames_run, InTime}
use donkeycar_gt.Parts.Files.{Name, select_images, token, with_path}
use donkeycar_gt.Parts.Files.Order.{
  IsSorted, IsSort, number, get_elem?-with_path, image_filenames-IsSorted,
}
use donkeycar_gt.Parts.Vision.{Vision}
use donkeycar_gt.Parts.ImageListCamera.{construct}
use donkeycar_gt.Parts.LineFollower.Update.{IsUsable}
use donkeycar_gt.Parts.Pipeline.{main_parts}
use donkeycar_gt.Parts.Pipeline.Frames.{IsMain, start_blocking-IsMain}
use donkeycar_gt.Application.{Platform, env_key, main}

module _ (v : Vision) (store : Store v.Picture) (platform : Platform) where
  open v use {imread, empty, no_picture}

  -- `main`, over a memory that only the vehicle uses: if the variable of the environment holds a path, the
  -- directory can be listed, a number stands in front of each of its pictures, every picture is read
  -- as empty or with 120 rows or more, a new `cv::Mat` is empty, and no frame takes longer than
  -- 2 247 483 648 ns, then the program comes to no fault: the files of the camera are the pictures of the
  -- directory and no others, each as often as it is there, in the order of their numbers, with the path in
  -- front. The vehicle runs the frames up to the one with the first signal, or all if none has one: its camera
  -- is the new one after as many updates, and the line follower and the consumer show what their `update`
  -- makes of its last picture. The loop ends exactly if a signal comes.
  pub main-IsMain :
      (tub_path path : Name) (c : ℕ) (entries : List Name)
      → IsSort platform.sort
      → platform.getenv env_key ≡ some (c ∷ tub_path)
      → platform.canonical (c ∷ tub_path) ≡ ok path
      → platform.directory path ≡ ok entries
      → ((name : Name) → Memᴰ name (select_images entries) → (z : ℤ) × (token name ≡ ok z))
      → ((name : Name)
          → Mem name (select_images entries)
          → IsUsable v (imread (path ++ b'/' ∷ name)))
      → empty no_picture ≡ true
      → (s : store.State) → store.Ready s
      → (signals : List (ℕ × Bool)) → All InTime signals
      → (files : List Name) × (car : Vehicle (main_parts v) store) × (main v store platform s
            signals
          ≡ ok (car, any_signal signals))
        × IsMain v store (with_path path files) (frames_run signals) car
        × Perm (select_images entries) files
        × IsSorted number files
  unfolding main construct
  main-IsMain tub_path path c entries is found canonical listed numbered usable nothing s ready
        signals in_time =
      let (files, chosen, perm, in_order) =
        image_filenames-IsSorted platform.sort is path entries numbered in
      let names = with_path path files in
      let readable : (i : ℕ) (name : Name)
          → get_elem? names i ≡ some name
          → IsUsable v (imread name) =
        λ i name e.
          let (f, m, same) = get_elem?-with_path path files i name e in
          rw (← same) (usable f ((Perm.mem_iff perm).1 ∣ m ∣₁)) in
      let (car, runs, sound) =
        start_blocking-IsMain v store names readable nothing s ready signals in_time in
      (files, car, rw (found, canonical, listed, chosen) runs, sound, perm, in_order)

  -- With no path in the environment, or an empty one, the program exits before it makes a part.
  pub exits_without_path :
      (s : store.State) (signals : List (ℕ × Bool))
      → (platform.getenv env_key ≡ none) ⊎ (platform.getenv env_key ≡ some [])
      → main v store platform s signals ≡ fault exits
  unfolding main
  exits_without_path s signals (inl unset) = rw unset refl
  exits_without_path s signals (inr blank) = rw blank refl
