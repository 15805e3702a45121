-- ===== src/Parts/Threaded.antt =====
-- app/main.cpp with `threaded` true: the vehicle, and the threads of the camera of files, of the line
-- follower and of the part that shows pictures (`run` and `update` of src/parts, include/parts/camera.hpp),
-- after `start` and before `shutdown`. Each takes a step for each access to what another can change: the
-- `m_input` of a part and the `Image` that the camera writes to. No mutex guards them, so C++ gives the program no
-- meaning where two of these accesses race. The steps here are the executions in which each access
-- happens to be whole; that the program comes to no fault cannot be read off them.
pub mod Frame
pub mod Unreadable
use Prim.Native.String.{String}
use donkeycar_gt.Prelude.{
  ℕ, ◌*◌, Bool, true, false, not, ◌&&◌, List, [], ◌∷◌, Option, none, some, ltb, if◌then◌else◌,
}
use donkeycar_gt.Run.{Run, ok, null_deref, cv_error, require, the, ◌>>=◌, ◌>>◌}
use donkeycar_gt.Store.{Store}
use donkeycar_gt.Vehicle.{PartClass}
use donkeycar_gt.Parts.Files.{Name}
use donkeycar_gt.Parts.Vision.{Vision}
use donkeycar_gt.Parts.ImageListCamera.{ImageListCamera, new_camera}
use donkeycar_gt.Parts.ImageListCamera as camera
use donkeycar_gt.Parts.LineFollower.{Drawing, get_i_color, diagnostic_display}
use donkeycar_gt.Parts.Pipeline.{cam_img_topic, vision_out_topic}

-- A pointer to an `Image`: the `m_output` of the camera, or the empty one that a part makes for its
-- `m_input` when it is constructed, which nobody writes to.
pub data ImagePtr : Type 0 where
  of_camera : ImagePtr
  of_part : ImagePtr

pub data ThreadedPart : Type 0 where
  file_cam : ThreadedPart
  vision : (m_input : Option ImagePtr) → ThreadedPart
  img_consumer : (m_input : Option ImagePtr) → ThreadedPart

abbrev input_topic : ThreadedPart → String
input_topic file_cam = ""
input_topic (vision p) = cam_img_topic
input_topic (img_consumer p) = cam_img_topic

abbrev output_topic : ThreadedPart → String
output_topic file_cam = cam_img_topic
output_topic (vision p) = vision_out_topic
output_topic (img_consumer p) = ""

-- `run` where `m_threaded` is true: "just get latest cached". The `m_output` of the last two is null.
abbrev pub run_threaded : Option ImagePtr → ThreadedPart → Run (Option ImagePtr × ThreadedPart)
run_threaded input file_cam = ok (some of_camera, file_cam)
run_threaded input (vision p) = ok (none, vision input)
run_threaded input (img_consumer p) = ok (none, img_consumer input)

abbrev pub threaded_parts : PartClass ImagePtr
threaded_parts = record {
  Part = ThreadedPart;
  input_topic = input_topic;
  output_topic = output_topic;
  run = run_threaded;
  start = λ part. ok part;
  shutdown = λ part. ok part;
}

-- `m_input` of a part; the camera has none that is read.
abbrev m_input_of : ThreadedPart → Option ImagePtr
m_input_of file_cam = none
m_input_of (vision p) = p
m_input_of (img_consumer p) = p

-- Which part the vehicle runs next.
pub data Station : Type 0 where
  at_camera at_follower at_consumer : Station

-- Where `LineFollower::update` stands.
pub data FollowerPc (Picture : Type 0) : Type 0 where
  testing : FollowerPc Picture  -- `if (m_input->frame().empty())`
  cloning : FollowerPc Picture  -- `m_input->frame().clone()`
  working : (img : Picture) → FollowerPc Picture  -- what it does with its copy

-- Where `ImageConsumer::update` stands.
pub data ConsumerPc : Type 0 where
  testing : ConsumerPc
  reading_rows : ConsumerPc
  reading_cols : (rows : ℕ) → ConsumerPc
  copying : (rows cols : ℕ) → ConsumerPc

-- Who takes a step.
pub data Turn : Type 0 where
  camera_thread vehicle_thread follower_thread consumer_thread : Turn

module _ (v : Vision) (store : Store ImagePtr) where
  open v use {Picture}
  open store use {State, get, put}

  pub record Scene : Type 0 where
    pub cam : ImageListCamera v
    pub memory : State
    pub station : Station
    pub follower_input : Option ImagePtr
    pub follower : FollowerPc Picture
    pub drawn : List Drawing  -- what the line follower shows last
    pub consumer_input : Option ImagePtr
    pub consumer : ConsumerPc
    pub shown : Option Picture  -- what the consumer shows last

  -- The parts as they are constructed, over a memory.
  unfoldable pub new_scene : State → List Name → Scene
  new_scene s names = record {
    cam = new_camera v names;
    memory = s;
    station = at_camera;
    follower_input = some of_part;
    follower = testing;
    drawn = [];
    consumer_input = some of_part;
    consumer = testing;
    shown = none;
  }

  -- `->frame()` of the image that a pointer leads to.
  abbrev pub frame_of : Scene → ImagePtr → Picture
  frame_of s of_camera = s.cam.frame
  frame_of s of_part = v.no_picture

  -- The body of the loop of `Vehicle::update_parts`, for one part.
  unfoldable pub run_part : ThreadedPart → State → Run (ThreadedPart × State)
  run_part part s = do
    (input, s1) ← get (input_topic part) s
    (output, part') ← run_threaded input part
    s2 ← put (output_topic part') output s1
    ok (part', s2)

  pub vehicle_step : Scene → Station → Run Scene
  unfolding run_part
  vehicle_step s at_camera = do
    (part, m) ← run_part file_cam s.memory
    ok (record s { memory = m; station = at_follower })
  vehicle_step s at_follower = do
    (part, m) ← run_part (vision s.follower_input) s.memory
    ok (record s { memory = m; station = at_consumer; follower_input = m_input_of part })
  vehicle_step s at_consumer = do
    (part, m) ← run_part (img_consumer s.consumer_input) s.memory
    ok (record s { memory = m; station = at_camera; consumer_input = m_input_of part })

  pub follower_step : Scene → FollowerPc Picture → Run Scene
  follower_step s testing = do
    p ← the s.follower_input null_deref
    ok (if v.empty (frame_of s p) then s else record s { follower = cloning })
  follower_step s cloning = do
    p ← the s.follower_input null_deref
    ok (record s { follower = working (frame_of s p) })
  follower_step s (working img) = do
    (centerline_x, total_pixels, mask) ← get_i_color v img
    ok (record s {
      follower = testing;
      drawn =
          diagnostic_display (v.mask_cols mask) (v.mask_rows mask) (v.cols img) centerline_x
            total_pixels;
    })

  -- `cv::resize` throws if its source or the size that it is given has no pixel.
  pub consumer_step : Scene → ConsumerPc → Run Scene
  consumer_step s testing = do
    p ← the s.consumer_input null_deref
    ok (if v.empty (frame_of s p) then s else record s { consumer = reading_rows })
  consumer_step s reading_rows = do
    p ← the s.consumer_input null_deref
    ok (record s { consumer = reading_cols (v.rows (frame_of s p)) })
  consumer_step s (reading_cols rows) = do
    p ← the s.consumer_input null_deref
    ok (record s { consumer = copying rows (v.cols (frame_of s p)) })
  consumer_step s (copying rows cols) = do
    p ← the s.consumer_input null_deref
    let img = frame_of s p
    require (not (v.empty img) && (ltb 0 rows && ltb 0 cols)) cv_error
        >> ok (record s { consumer = testing; shown = some (v.resize (cols * 3) (rows * 3) img) })

  unfoldable pub step : Turn → Scene → Run Scene
  unfolding vehicle_step follower_step consumer_step
  step camera_thread s = do c ← camera.update v s.cam; ok (record s { cam = c })
  step vehicle_thread s = vehicle_step s s.station
  step follower_thread s = follower_step s s.follower
  step consumer_thread s = consumer_step s s.consumer

  unfoldable pub steps : List Turn → Scene → Run Scene
  steps [] s = ok s
  steps (t ∷ ts) s = step t s >>= steps ts
