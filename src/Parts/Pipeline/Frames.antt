-- ===== src/Parts/Pipeline/Frames.antt =====
-- app/main.cpp: the frames of the vehicle that it puts together.
use donkeycar_gt.Prelude.{
  ℕ, zero, suc, ◌≡◌, refl, ◌∙◌, ap, sym, Bool, true, false, List, [], ◌∷◌, Option, none, some,
  length, get_elem?, arith, inl, inr,
}
use donkeycar_gt.Prelude.Relations.{All}
use donkeycar_gt.Run.{ok, Run-cases, fault, null_deref}
use donkeycar_gt.Store.{Store}
use donkeycar_gt.Vehicle.{
  Vehicle, update_parts, update_each, start_blocking, signal_handler, stop, for_each, add,
}
use donkeycar_gt.Vehicle.Running.{
  any_signal, frames_run, InTime, Invariant, start_blocking-Invariant,
}
use donkeycar_gt.Parts.Files.{Name}
use donkeycar_gt.Parts.Vision.{Vision}
use donkeycar_gt.Parts.ImageListCamera.{ImageListCamera, new_camera}
use donkeycar_gt.Parts.ImageListCamera as camera
use donkeycar_gt.Parts.ImageListCamera.Cycle.{update-in_range}
use donkeycar_gt.Parts.LineFollower.{Drawing}
use donkeycar_gt.Parts.LineFollower as follower
use donkeycar_gt.Parts.LineFollower.Update.{IsUsable, update-ok}
use donkeycar_gt.Parts.ImageConsumer as consumer
use donkeycar_gt.Parts.Pipeline.{
  MainPart, file_cam, vision, img_consumer, main_parts, run, cam_img_topic, vision_out_topic,
  main_vehicle,
}

module _ (v : Vision) (store : Store v.Picture) (names : List Name) where
  open v use {Picture, imread, rows, empty}
  open store use {State, Ready, view, get, put, get_lem, put_lem}

  -- The camera holds these names, and its frame is a picture that can be worked on.
  abbrev pub IsSound : ImageListCamera v → Type 0
  IsSound c = (c.m_image_filenames ≡ names) × (c.m_num_images ≡ length names) × IsUsable v c.frame

  -- What the line follower and the consumer show after so many frames: before the first one nothing, and
  -- then what their `update` makes of the picture of the camera in the last one.
  abbrev pub Shows : ℕ → Picture → List Drawing → Option Picture → Type 0
  Shows zero img lines shown = (lines ≡ []) × (shown ≡ none)
  Shows (suc n) img lines shown =
      (follower.update v (some img) ≡ ok lines) × (consumer.update v (some img) ≡ ok shown)

  -- The parts of `main` in their order after so many frames, with a memory that nobody else uses: the
  -- camera is a new one after as many updates, and the other two have worked on its picture.
  abbrev pub IsMain : ℕ → Vehicle (main_parts v) store → Type 0
  IsMain n car =
      (c : ImageListCamera v) × (lines : List Drawing) × (shown : Option Picture) × (car.m_parts
        ≡ file_cam c ∷ vision lines ∷ img_consumer shown ∷ [])
      × IsSound c
      × (camera.updates v n (new_camera v names) ≡ ok c)
      × Shows n c.frame lines shown
      × Ready car.m_store

  camera_update-ok :
      ((i : ℕ) (name : Name) → get_elem? names i ≡ some name → IsUsable v (imread name))
      → (c : ImageListCamera v) → IsSound c
      → (c' : ImageListCamera v) × (camera.update v c ≡ ok c') × IsSound c'
  camera_update-ok usable c (here, count, fine) =
      let (c', done, names_kept, count_kept, shows) =
        update-in_range v c (count ∙ ap length (sym here)) in
      let fine' : IsUsable v c'.frame = elim shows [
        | inl same ↦ rw same fine
        | inr (i, name, found, shown) ↦ rw shown (usable i name (rw here at found))
      ] in
      (c', done, (names_kept ∙ here, count_kept ∙ count, fine'))

  consumer_update-ok :
      (img : Picture) → (shown : Option Picture) × (consumer.update v (some img) ≡ ok shown)
  unfolding consumer.update
  consumer_update-ok img = elim (Run-cases (consumer.update v (some img))) [
    | inl done ↦ done
    | inr (e, failed) ↦ ground arith
  ]

  frame-IsMain :
      ((i : ℕ) (name : Name) → get_elem? names i ≡ some name → IsUsable v (imread name))
      → (n : ℕ) (car : Vehicle (main_parts v) store) → IsMain n car
      → (car' : Vehicle (main_parts v) store) × (update_parts (main_parts v) store car ≡ ok car')
        × IsMain (suc n) car'
        × (car'.m_running ≡ car.m_running)
  unfolding update_parts update_each run camera.updates
  frame-IsMain usable n car (c, lines, shown, parts, sound, so_far, _, ready) =
      let (c', filmed, sound') = camera_update-ok usable c sound in
      let img = c'.frame in
      let (lines', followed) = update-ok v img sound'.2 in
      let (shown', consumed) = consumer_update-ok img in
      let (s1, got1, ready1, _) = get_lem "" car.m_store ready in
      let (s2, put2, ready2, has2) = put_lem cam_img_topic (some img) s1 ready1 in
      let (s3, got3, ready3, has3) = get_lem cam_img_topic s2 ready2 in
      let (s4, put4, ready4, has4) = put_lem vision_out_topic none s3 ready3 in
      let (s5, got5, ready5, has5) = get_lem cam_img_topic s4 ready4 in
      let (s6, put6, ready6, _) = put_lem "" none s5 ready5 in
      let seen : view s2 cam_img_topic ≡ some img = has2 cam_img_topic in
      let seen' : view s4 cam_img_topic ≡ some img =
        has4 cam_img_topic ∙ has3 cam_img_topic ∙ seen in
      let parts' = file_cam c' ∷ vision lines' ∷ img_consumer shown' ∷ [] in
      (
        record car { m_parts = parts'; m_store = s6 },
        rw (parts, got1, filmed, put2, got3, seen, followed, put4, got5, seen', consumed, put6)
            refl,
        (c', lines', shown', refl, sound', rw so_far filmed, (followed, consumed), ready6),
        refl,
      )

  IsMain-Invariant :
      ((i : ℕ) (name : Name) → get_elem? names i ≡ some name → IsUsable v (imread name))
      → Invariant (main_parts v) store IsMain
  unfolding signal_handler stop for_each
  IsMain-Invariant usable = record {
    frame = frame-IsMain usable;
    halt = λ n car (c, lines, shown, parts, sound, so_far, shows, ready). (
      record car {
        m_parts = file_cam c ∷ vision lines ∷ img_consumer shown ∷ [];
        m_running = false;
      },
      rw parts refl,
      (c, lines, shown, refl, sound, so_far, shows, ready),
      refl,
    );
  }

  -- The vehicle of `main`, over a memory that only it uses: if a new `cv::Mat` is empty and every file of
  -- the camera is read as an empty picture or as one with 120 rows or more, and no frame takes longer
  -- than 2 247 483 648 ns, then `start_blocking` comes to no fault, runs the frames up to the one with a signal,
  -- or all, and ends its loop exactly if a signal comes.
  pub start_blocking-IsMain :
      ((i : ℕ) (name : Name) → get_elem? names i ≡ some name → IsUsable v (imread name))
      → empty v.no_picture ≡ true
      → (s : State) → Ready s
      → (signals : List (ℕ × Bool)) → All InTime signals
      → (car : Vehicle (main_parts v) store) × (start_blocking
            (main_parts v)
            store
            signals
            (main_vehicle v store s (new_camera v names))
          ≡ ok (car, any_signal signals))
        × IsMain (frames_run signals) car
  unfolding main_vehicle add for_each new_camera camera.updates
  start_blocking-IsMain usable nothing s ready signals in_time =
      let c = new_camera v names in
      start_blocking-Invariant (main_parts v) store IsMain (IsMain-Invariant usable) signals
        (main_vehicle v store s c) (file_cam c ∷ vision [] ∷ img_consumer none ∷ []) refl in_time
        (c, [], none, refl, (refl, refl, inl nothing), refl, (refl, refl), ready)

module _ (v : Vision) (store : Store v.Picture) where
  open store use {Ready, view, get_lem}

  -- A line follower that is run while the memory holds nothing at its input topic reads through a null
  -- pointer: `run` puts the null pointer where the constructor put an empty picture.
  pub follower_first_faults :
      (car : Vehicle (main_parts v) store) (lines : List Drawing) (rest : List (MainPart v))
      → car.m_parts ≡ vision lines ∷ rest
      → Ready car.m_store
      → view car.m_store cam_img_topic ≡ none
      → update_parts (main_parts v) store car ≡ fault null_deref
  unfolding update_parts update_each run follower.update
  follower_first_faults car lines rest parts ready absent =
      let (s1, got, _, _) = get_lem cam_img_topic car.m_store ready in rw (parts, got, absent) refl
