-- ===== src/Parts/WebCamera.antt =====
-- include/parts/web-camera.h and src/parts/web-camera.cpp: the camera that reads a device. What the device
-- gives is an argument, as is the steady clock in nanoseconds. A `cv::Mat` is a pointer to a buffer, which an
-- assignment shares; the pictures in the buffers are a store here.
pub mod Pace
pub mod Sharing
use donkeycar_gt.Prelude.{
  ℕ, suc, ◌+◌, ◌-◌, ◌*◌, ◌/◌, ◌==◌, Bool, true, not, ◌&&◌, Option, none, some, List, [], ◌∷◌, ltb,
  if◌then◌else◌,
}
use donkeycar_gt.Parts.Vision.{Vision}

-- `m_fps` of the constructor.
abbrev pub fps : ℕ
fps = 30

-- `duration > m_period_ms` for a whole number of milliseconds and a period of `1.0 / m_fps * 1000`, which
-- no whole number is near.
abbrev pub period_is_over : ℕ → Bool
period_is_over duration = ltb 1000 (duration * fps)

module _ (v : Vision) where
  open v use {Picture, empty, rows, cols, no_picture}

  pub record WebCamera : Type 0 where
    pub buffers : ℕ → Picture
    pub next_buffer : ℕ
    pub m_frame : Option ℕ
    pub m_last_frame : ℕ
    pub output_frame : Option ℕ  -- m_output->frame()

  -- The constructor: both are empty, and `m_last_frame` is the epoch of the clock.
  unfoldable pub new_web_camera : WebCamera
  new_web_camera = record {
    buffers = λ b. no_picture;
    next_buffer = 0;
    m_frame = none;
    m_last_frame = 0;
    output_frame = none;
  }

  -- The picture that a `cv::Mat` leads to.
  abbrev pub picture_at : (ℕ → Picture) → Option ℕ → Picture
  picture_at buffers none = no_picture
  picture_at buffers (some b) = buffers b

  abbrev pub is_empty : (ℕ → Picture) → Option ℕ → Bool
  is_empty buffers none = true
  is_empty buffers (some b) = empty (buffers b)

  abbrev pub same_size : Picture → Picture → Bool
  same_size p q = (rows p == rows q) && (cols p == cols q)

  abbrev pub write : (ℕ → Picture) → ℕ → Picture → ℕ → Picture
  write buffers b captured u = if b == u then captured else buffers u

  abbrev pub to_new_buffer : Picture → WebCamera → WebCamera
  to_new_buffer captured c = record c {
    buffers = write c.buffers c.next_buffer captured;
    next_buffer = suc c.next_buffer;
    m_frame = some c.next_buffer;
  }

  abbrev pub to_frame : Bool → Picture → WebCamera → Option ℕ → WebCamera
  to_frame in_place captured c none = to_new_buffer captured c
  to_frame in_place captured c (some b) =
      if in_place && same_size (c.buffers b) captured
      then record c { buffers = write c.buffers b captured }
      else to_new_buffer captured c

  -- `m_cap >> m_frame`: a capture that fails leaves it empty. `in_place`: the device copies a picture into the
  -- buffer that it is given, if the size is the same, as `cv::Mat::copyTo` does.
  unfoldable pub capture : Bool → Picture → WebCamera → WebCamera
  capture in_place captured c =
      if empty captured then record c { m_frame = none } else to_frame in_place captured c c.m_frame

  -- The rest of `update`. A clock before `m_last_frame` makes the duration negative, which is no more than 0 here.
  unfoldable pub show_frame : ℕ → WebCamera → WebCamera
  show_frame now c =
      let duration = (now - c.m_last_frame) / 1_000_000 in
      if not (is_empty c.buffers c.m_frame) && period_is_over duration
      then record c { m_last_frame = now; output_frame = c.m_frame }
      else c

  unfoldable pub update : (in_place : Bool) (captured : Picture) (now : ℕ) → WebCamera → WebCamera
  unfolding capture show_frame
  update in_place captured now c = show_frame now (capture in_place captured c)

  unfoldable pub updates : Bool → List (Picture × ℕ) → WebCamera → WebCamera
  unfolding update
  updates in_place [] c = c
  updates in_place ((captured, now) ∷ rest) c =
      updates in_place rest (update in_place captured now c)
