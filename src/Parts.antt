-- ===== src/Parts.antt =====
-- include/parts and src/parts: the parts that the vehicle drives.
-- What OpenCV does with pictures is a parameter, `Vision`.
pub mod Files
pub mod Vision
pub mod ImageListCamera
pub mod LineFollower
pub mod ImageConsumer
pub mod Pipeline
pub mod Threaded
pub mod WebCamera
pub mod Interpreter
pub mod Pilot
pub mod Network
