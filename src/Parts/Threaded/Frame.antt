-- ===== src/Parts/Threaded/Frame.antt =====
-- The steps of the vehicle among the threads, against `update_parts` of src/vehicle.cpp.
use donkeycar_gt.Prelude.{◌≡◌, refl, ◌∙◌, List, [], ◌∷◌, Option, none, some}
use donkeycar_gt.Run.{ok}
use donkeycar_gt.Store.{Store}
use donkeycar_gt.Vehicle.{update_each}
use donkeycar_gt.Parts.Vision.{Vision}
use donkeycar_gt.Parts.Pipeline.{cam_img_topic, vision_out_topic}
use donkeycar_gt.Parts.Threaded.{
  ImagePtr, of_camera, ThreadedPart, file_cam, vision, img_consumer, threaded_parts, at_camera,
  vehicle_thread, Scene, run_part, vehicle_step, step, steps,
}

module _ (v : Vision) (store : Store ImagePtr) where
  open store use {State, Ready, view, get_lem, put_lem}

  pub film_camera :
      (s : State)
      → Ready s
      → (s' : State) × (run_part v store file_cam s ≡ ok (file_cam, s'))
        × Ready s'
        × (view s' cam_img_topic ≡ some of_camera)
  unfolding run_part
  film_camera s ready =
      let (s1, got, ready1, _) = get_lem "" s ready in
      let (s2, put2, ready2, has2) = put_lem cam_img_topic (some of_camera) s1 ready1 in
      (s2, rw (got, put2) refl, ready2, has2 cam_img_topic)

  pub run_vision :
      (p : Option ImagePtr) (s : State)
      → Ready s
      → view s cam_img_topic ≡ some of_camera
      → (s' : State) × (run_part v store (vision p) s ≡ ok (vision (some of_camera), s'))
        × Ready s'
        × (view s' cam_img_topic ≡ some of_camera)
  unfolding run_part
  run_vision p s ready held =
      let (s1, got, ready1, has1) = get_lem cam_img_topic s ready in
      let (s2, put2, ready2, has2) = put_lem vision_out_topic none s1 ready1 in
      (s2, rw (got, held, put2) refl, ready2, has2 cam_img_topic ∙ has1 cam_img_topic ∙ held)

  pub run_consumer :
      (p : Option ImagePtr) (s : State)
      → Ready s
      → view s cam_img_topic ≡ some of_camera
      → (s' : State) × (run_part v store (img_consumer p) s
          ≡ ok (img_consumer (some of_camera), s'))
        × Ready s'
  unfolding run_part
  run_consumer p s ready held =
      let (s1, got, ready1, has1) = get_lem cam_img_topic s ready in
      let (s2, put2, ready2, has2) = put_lem "" none s1 ready1 in
      (s2, rw (got, held, put2) refl, ready2)

  -- The parts of a scene, as the vehicle holds them.
  abbrev pub parts_of : Scene v store → List ThreadedPart
  parts_of s = file_cam ∷ vision s.follower_input ∷ img_consumer s.consumer_input ∷ []

  -- In a memory that no other thread uses, three steps of the vehicle from its place before the camera are
  -- one frame of `update_parts`: they leave the same parts with the same inputs and the same memory, and
  -- the vehicle at its first place. Both inputs are then the image of the camera, and the camera is as it was.
  pub vehicle_frame :
      (s : Scene v store)
      → s.station ≡ at_camera
      → Ready s.memory
      → (t : Scene v store) × (steps v store
            (vehicle_thread ∷ vehicle_thread ∷ vehicle_thread ∷ [])
            s
          ≡ ok t)
        × (update_each threaded_parts store (parts_of s) s.memory ≡ ok (parts_of t, t.memory))
        × (t.station ≡ at_camera)
        × (t.follower_input ≡ some of_camera)
        × (t.consumer_input ≡ some of_camera)
        × (t.cam ≡ s.cam)
  unfolding steps step vehicle_step run_part update_each
  vehicle_frame s here ready =
      let img = some of_camera in
      let (s1, got1, ready1, _) = get_lem "" s.memory ready in
      let (s2, put2, ready2, has2) = put_lem cam_img_topic img s1 ready1 in
      let (s3, got3, ready3, has3) = get_lem cam_img_topic s2 ready2 in
      let (s4, put4, ready4, has4) = put_lem vision_out_topic none s3 ready3 in
      let (s5, got5, ready5, has5) = get_lem cam_img_topic s4 ready4 in
      let (s6, put6, ready6, _) = put_lem "" none s5 ready5 in
      let seen : view s2 cam_img_topic ≡ img = has2 cam_img_topic in
      let seen' : view s4 cam_img_topic ≡ img = has4 cam_img_topic ∙ has3 cam_img_topic ∙ seen in
      (
        record s { memory = s6; station = at_camera; follower_input = img; consumer_input = img },
        rw (here, got1, put2, got3, seen, put4, got5, seen', put6) refl,
        rw (got1, put2, got3, seen, put4, got5, seen', put6) refl,
        refl,
        refl,
        refl,
        refl,
      )
