-- ===== src/Parts/Threaded/Unreadable.antt =====
-- The threaded parts of app/main.cpp, when the camera meets a file that cannot be read: the test of a part
-- and its use of the picture are two steps, and the camera may write between them.
use native.Mathlib.Nat.{suc-mod}
use donkeycar_gt.Prelude.{
  ℕ, ◌+◌, ◌<◌, ◌%◌, ◌≡◌, refl, ◌∙◌, ap, sym, true, false, List, [], ◌∷◌, some, length, get_elem?,
  arith,
}
use donkeycar_gt.Run.{ok, fault, cv_error}
use donkeycar_gt.Store.{Store}
use donkeycar_gt.Parts.Files.{Name}
use donkeycar_gt.Parts.Vision.{Vision}
use donkeycar_gt.Parts.ImageListCamera.{new_camera}
use donkeycar_gt.Parts.ImageListCamera.Cycle.{at_frame, update-at_frame}
use donkeycar_gt.Parts.LineFollower.Update.{get_i_color-low}
use donkeycar_gt.Parts.LineFollower as follower
use donkeycar_gt.Parts.Threaded.{
  ImagePtr, of_camera, of_part, FollowerPc, working, Turn, camera_thread, vehicle_thread,
  follower_thread, Scene, new_scene, at_consumer, vehicle_step, follower_step, step, steps,
}
use donkeycar_gt.Parts.Threaded.Frame.{film_camera, run_vision}

module _ (v : Vision) (store : Store ImagePtr) where
  open v use {Picture, imread, rows, empty}
  open store use {State, Ready}

  -- A line follower that tests its picture, a camera that reads the next file, and a line follower that clones
  -- that and then throws.
  tested_too_early :
      (s : Scene v store) (names : List Name) (i : ℕ) (img : Picture) (name : Name)
      → s.cam ≡ at_frame v names i img
      → s.follower ≡ FollowerPc.testing
      → s.follower_input ≡ some of_camera
      → empty img ≡ false
      → 0 < length names
      → get_elem? names ((i + 1) % length names) ≡ some name
      → rows (imread name) ≡ 0
      → (t : Scene v store) × (steps v store
            (follower_thread ∷ camera_thread ∷ follower_thread ∷ [])
            s
          ≡ ok t)
        × (step v store follower_thread t ≡ fault cv_error)
  unfolding steps step follower_step
  tested_too_early s names i img name films tests held seen some_file next no_rows =
      let j = (i + 1) % length names in
      let filmed = update-at_frame v names i j img name some_file refl next in
      (
        record s { cam = at_frame v names j (imread name); follower = working (imread name) },
        rw (tests, held, films, seen, filmed) refl,
        rw (get_i_color-low v (imread name) (omega (arith, no_rows))) refl,
      )

  -- The threaded parts of `main`, over files where the first that the camera shows is a picture that is
  -- not empty, and the one after it is read as an empty picture with no rows: from the start there is an
  -- order of steps of the camera, the vehicle and the line follower, none of which fails, after which the
  -- next step of the line follower is an exception of OpenCV. Without a thread `update` returns on that
  -- picture and draws nothing.
  pub unreadable_file_throws :
      (s : State)
      → Ready s
      → (names : List Name) (good bad : Name) → 0 < length names
      → get_elem? names (1 % length names) ≡ some good
      → get_elem? names (2 % length names) ≡ some bad
      → empty (imread good) ≡ false
      → empty (imread bad) ≡ true
      → rows (imread bad) ≡ 0
      → ((turns : List Turn) × (t : Scene v store) × (steps v store turns
              (new_scene v store s names)
            ≡ ok t)
          × (step v store follower_thread t ≡ fault cv_error))
        × (follower.update v (some (imread bad)) ≡ ok [])
  unfolding steps step vehicle_step follower.update new_scene new_camera
  unreadable_file_throws s ready names good bad some_file first second seen black no_rows =
      let (m1, filmed, ready1, held) = film_camera v store s ready in
      let (m2, followed, ready2, _) = run_vision v store (some of_part) m1 ready1 held in
      let j = 1 % length names in
      let started = update-at_frame v names 0 j v.no_picture good some_file refl first in
      let turn : (j + 1) % length names ≡ 2 % length names =
        ap (λ k. k % length names) (omega arith) ∙ sym (suc-mod 1 (length names)) in
      let scene = record (new_scene v store s names) {
        cam = at_frame v names j (imread good);
        memory = m2;
        station = at_consumer;
        follower_input = some of_camera;
      } in
      let (t, done, throws) =
        tested_too_early scene names j (imread good) bad refl refl refl seen some_file
          (rw turn second) no_rows in
      (
        (
          vehicle_thread ∷ vehicle_thread ∷ camera_thread ∷ follower_thread ∷ camera_thread
              ∷ follower_thread ∷ [],
          t,
          rw (filmed, followed, started) done,
          throws,
        ),
        rw black refl,
      )
