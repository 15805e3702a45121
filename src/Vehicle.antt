-- ===== src/Vehicle.antt =====
-- include/vehicle.h and src/vehicle.cpp: the vehicle, over the store of Store.antt and over any parts.
pub mod Wiring
pub mod Throttle
pub mod Rate
pub mod Running
use Prim.Native.String.{String}
use donkeycar_gt.Prelude.{
  ℕ, zero, suc, ◌≡◌, Bool, true, false, not, List, [], ◌∷◌, ◌++◌, Option, if◌then◌else◌,
}
use donkeycar_gt.Run.{Run, ok, ◌>>=◌}
use donkeycar_gt.Store.{Store}
use donkeycar_gt.Vehicle.Throttle.{throttle}

-- What the vehicle calls of a part (include/parts/part.hpp), with the part after the call. The topics
-- are set by the constructor, so no call changes them.
pub record PartClass (D : Type 0) : Type 1 where
  pub Part : Type 0
  pub input_topic : Part → String
  pub output_topic : Part → String
  pub run : Option D → Part → Run (Option D × Part)
  pub start : Part → Run Part
  pub shutdown : Part → Run Part

module _ {D : Type 0} (class : PartClass D) (store : Store D) where
  open class use {Part, input_topic, output_topic, run, start, shutdown}
  open store use {State, get, put}

  pub record Vehicle : Type 0 where
    pub m_parts : List Part
    pub m_store : State
    pub m_running : Bool

  -- The constructor, over the store that it makes.
  unfoldable pub new_vehicle : State → Vehicle
  new_vehicle s = record { m_parts = []; m_store = s; m_running = false }

  unfoldable pub add : Vehicle → Part → Vehicle
  add v part = record v { m_parts = v.m_parts ++ part ∷ [] }

  -- `for (const PartPtr& part : m_parts) { ... }` of `update_parts`
  unfoldable pub update_each : List Part → State → Run (List Part × State)
  update_each [] s = ok ([], s)
  update_each (part ∷ parts) s = do
    (input, s1) ← get (input_topic part) s
    (output, part') ← run input part
    s2 ← put (output_topic part') output s1
    (parts', s3) ← update_each parts s2
    ok (part' ∷ parts', s3)

  unfoldable pub update_parts : Vehicle → Run Vehicle
  unfolding update_each
  update_parts v = do
    (parts, s) ← update_each v.m_parts v.m_store
    ok (record v { m_parts = parts; m_store = s })

  unfoldable pub for_each : (Part → Run Part) → List Part → Run (List Part)
  for_each f [] = ok []
  for_each f (part ∷ parts) = do part' ← f part; parts' ← for_each f parts; ok (part' ∷ parts')

  unfoldable pub stop : Vehicle → Run Vehicle
  unfolding for_each
  stop v = do
    parts ← for_each shutdown v.m_parts
    ok (record v { m_parts = parts; m_running = false })

  -- `signal_handler` calls `stop` on the one vehicle of the process.
  unfoldable pub signal_handler : Vehicle → Run Vehicle
  unfolding stop
  signal_handler v = stop v

  -- The frames of `while (m_running)`: an entry of the list says how many nanoseconds the `update_parts` of a
  -- frame took, and whether the signal comes at its end. The list bounds the frames; the result says
  -- whether the loop has ended.
  pub frames : List (ℕ × Bool) → Vehicle → Run (Vehicle × Bool)
  unfolding update_parts signal_handler
  frames [] v = ok (v, not v.m_running)
  frames ((took, signal) ∷ later) v =
      if v.m_running
      then (do
        v1 ← update_parts v
        slept ← throttle took
        v2 ← (if signal then signal_handler v1 else ok v1)
        frames later v2)
      else ok (v, true)

  pub start_blocking : List (ℕ × Bool) → Vehicle → Run (Vehicle × Bool)
  unfolding for_each frames
  start_blocking signals v = do
    let running = record v { m_running = true }
    parts ← for_each start running.m_parts
    frames signals (record running { m_parts = parts })
