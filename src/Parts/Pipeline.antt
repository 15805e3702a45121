-- ===== src/Parts/Pipeline.antt =====
-- app/main.cpp: the vehicle with the camera of files, the line follower and the part that shows pictures,
-- none of which has a thread; and `run` of these parts (include/parts/camera.hpp, src/parts).
-- All parts hold one `Image` by pointers, and only the camera writes to it, just before it is put into the
-- memory again; so a pointer to it in the memory is the picture itself here, and null is `none`.
pub mod Frames
use Prim.Native.String.{String}
use donkeycar_gt.Prelude.{ℕ, Bool, false, List, [], ◌∷◌, Option, none, some}
use donkeycar_gt.Run.{Run, ok, ◌>>=◌}
use donkeycar_gt.Store.{Store}
use donkeycar_gt.Vehicle.{PartClass, Vehicle, new_vehicle, add}
use donkeycar_gt.Parts.Vision.{Vision}
use donkeycar_gt.Parts.ImageListCamera.{ImageListCamera}
use donkeycar_gt.Parts.ImageListCamera as camera
use donkeycar_gt.Parts.LineFollower.{Drawing}
use donkeycar_gt.Parts.LineFollower as follower
use donkeycar_gt.Parts.ImageConsumer as consumer

abbrev pub cam_img_topic : String
cam_img_topic = "cam/image"

abbrev pub vision_out_topic : String
vision_out_topic = "vision-out"

module _ (v : Vision) where
  open v use {Picture}

  -- A part, with what it shows last.
  pub data MainPart : Type 0 where
    file_cam : ImageListCamera v → MainPart
    vision : (shown : List Drawing) → MainPart
    img_consumer : (shown : Option Picture) → MainPart

  abbrev pub input_topic : MainPart → String
  input_topic (file_cam c) = ""
  input_topic (vision shown) = cam_img_topic
  input_topic (img_consumer shown) = cam_img_topic

  abbrev pub output_topic : MainPart → String
  output_topic (file_cam c) = cam_img_topic
  output_topic (vision shown) = vision_out_topic
  output_topic (img_consumer shown) = ""

  -- `run` of each part where `m_threaded` is false. The `m_output` of the last two is null for ever.
  abbrev pub camera_run : Option Picture → ImageListCamera v → Run (Option Picture × MainPart)
  camera_run input c = do c' ← camera.update v c; ok (some c'.frame, file_cam c')

  abbrev pub follower_run : Option Picture → Run (Option Picture × MainPart)
  follower_run input = do shown ← follower.update v input; ok (none, vision shown)

  abbrev pub consumer_run : Option Picture → Run (Option Picture × MainPart)
  consumer_run input = do shown ← consumer.update v input; ok (none, img_consumer shown)

  unfoldable pub run : Option Picture → MainPart → Run (Option Picture × MainPart)
  run input (file_cam c) = camera_run input c
  run input (vision shown) = follower_run input
  run input (img_consumer shown) = consumer_run input

  -- `start` and `shutdown` do nothing where `m_threaded` is false.
  abbrev pub main_parts : PartClass Picture
  main_parts = record {
    Part = MainPart;
    input_topic = input_topic;
    output_topic = output_topic;
    run = run;
    start = λ part. ok part;
    shutdown = λ part. ok part;
  }

  -- The vehicle of `main` before `start_blocking`, over a new memory and a new camera.
  module _ (store : Store Picture) where
    pub main_vehicle : store.State → ImageListCamera v → Vehicle main_parts store
    unfolding add new_vehicle
    main_vehicle s c =
        add main_parts store
          (add main_parts store (add main_parts store (new_vehicle main_parts store s) (file_cam c))
            (vision []))
          (img_consumer none)
