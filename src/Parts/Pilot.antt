-- ===== src/Parts/Pilot.antt =====
-- include/parts/keras.hpp: `KerasPilot`, the part that feeds its input to a network.
pub mod Session
use donkeycar_gt.Prelude.{Bool, false, List, [], ◌∷◌, Option, none, some, if◌then◌else◌}
use donkeycar_gt.Run.{Run, ok, null_deref, the, ◌>>=◌}
use donkeycar_gt.Parts.Files.{Name}
use donkeycar_gt.Parts.Vision.{Vision}
use donkeycar_gt.Parts.Interpreter.{TfLite, TfLiteInterpreter, load, predict}

module _ (v : Vision) (tf : TfLite v) where
  open v use {Picture, no_picture}

  pub record KerasPilot : Type 0 where
    pub m_input : Option Picture
    pub m_interpreter : TfLiteInterpreter v tf

  -- The constructor, for the path of the model that is written in it.
  unfoldable pub new_pilot : Name → Run KerasPilot
  new_pilot model_path = do
    loaded ← load v tf model_path
    ok (record { m_input = some no_picture; m_interpreter = loaded })

  -- `update`
  unfoldable pub pilot_update : KerasPilot → Run KerasPilot
  pilot_update pilot = do
    frame ← the pilot.m_input null_deref
    predicted ← predict v tf frame pilot.m_interpreter
    ok (record pilot { m_interpreter = predicted })

  -- `run`, with `m_threaded`; `m_output` is null for ever.
  unfoldable pub pilot_run : Bool → Option Picture → KerasPilot → Run (Option Picture × KerasPilot)
  unfolding pilot_update
  pilot_run threaded input pilot =
      let given = record pilot { m_input = input } in
      if threaded then ok (none, given) else (do done ← pilot_update given; ok (none, done))

  -- The calls of `run` in the frames, one for each input.
  unfoldable pub pilot_runs : List (Option Picture) → KerasPilot → Run KerasPilot
  unfolding pilot_run
  pilot_runs [] pilot = ok pilot
  pilot_runs (input ∷ inputs) pilot = do
    (_, pilot') ← pilot_run false input pilot
    pilot_runs inputs pilot'
