-- ===== src/Parts/Pilot/Session.antt =====
-- include/parts/keras.hpp: the frames of a pilot that was loaded.
use donkeycar_gt.Prelude.{
  ℕ, ◌*◌, ◌≤◌, ◌<◌, ◌≡◌, refl, ◌∙◌, ap, length-append, length-drop, true, List, [], ◌∷◌, ◌++◌, some,
  length, drop, map, arith, ◌⊎◌, inl, inr, Bool-cases,
}
use donkeycar_gt.Prelude.Relations.{All}
use donkeycar_gt.Run.{ok, ◌>>=◌}
use donkeycar_gt.Parts.Files.{Name}
use donkeycar_gt.Parts.Vision.{Vision}
use donkeycar_gt.Parts.Interpreter.{TfLite, TfLiteInterpreter, predict}
use donkeycar_gt.Parts.Interpreter.Tensor.{IsTfLite, fits_tensor, load-loaded}
use donkeycar_gt.Parts.Pilot.{KerasPilot, new_pilot, pilot_runs}

-- What is written to the tensor is in it, and `Invoke` leaves a tensor of its type and size.
pub record KeepsTensor (v : Vision) (tf : TfLite v) : Type 0 where
  pub with_input_lem :
      (graph : tf.Graph) (floats tensor : List ℕ)
      → tf.input graph ≡ some floats
      → length tensor ≡ length floats
      → tf.input (tf.with_input graph tensor) ≡ some tensor
  pub invoke_lem :
      (graph : tf.Graph) (floats : List ℕ)
      → tf.input graph ≡ some floats
      → (left : List ℕ) × (tf.input (tf.invoke graph) ≡ some left) × (length left ≡ length floats)

module _ (v : Vision) (tf : TfLite v) where
  open v use {Picture, empty}

  -- Loaded with an input tensor of this shape.
  abbrev pub IsLoaded : (b h w c : ℕ) → TfLiteInterpreter v tf → Type 0
  IsLoaded b h w c t =
      (graph : tf.Graph) × (floats : List ℕ) × (t ≡ record {
        m_interpreter = some graph;
        m_input_batch_size = b;
        m_input_height = h;
        m_input_width = w;
        m_input_channels = c;
      })
      × (tf.input graph ≡ some floats)
      × (length floats ≡ 4 * (b * c) * (h * w))

  -- A picture that holds nothing, or has 3 bytes for each pixel.
  abbrev pub IsColor : Picture → Type 0
  IsColor img = (empty img ≡ true) ⊎ (tf.elem_size img ≡ 3)

module _ (v : Vision) (tf : TfLite v) (is : IsTfLite v tf) (keeps : KeepsTensor v tf) where
  open v use {Picture, empty}

  predict-IsLoaded :
      (b h w c : ℕ) (t : TfLiteInterpreter v tf) (picture : Picture)
      → 0 < b
      → 0 < h
      → 0 < w
      → 0 < c
      → IsColor v tf picture
      → IsLoaded v tf b h w c t
      → (t' : TfLiteInterpreter v tf) × (predict v tf picture t ≡ ok t') × IsLoaded v tf b h w c t'
  unfolding predict
  predict-IsLoaded b h w c t picture hb hh hw hc color (graph, floats, same, typed, size) =
      elim (Bool-cases (empty picture)) [
        | inl nothing ↦ (t, rw nothing refl, (graph, floats, same, typed, size))
        | inr seen ↦
            let three : tf.elem_size picture ≡ 3 = elim color [
              | inl nothing ↦ cc
              | inr three ↦ three
            ] in
            let pixels = tf.bytes (v.resize w h picture) in
            let count : length pixels ≡ 3 * (h * w) =
              is.resized_bytes w h picture ∙ ap (λ k. k * (h * w)) three in
            let fits : length pixels ≤ length floats =
              rw (count, size) (fits_tensor v tf is b c (h * w) hb hc) in
            let tensor = pixels ++ drop (length pixels) floats in
            let whole : length tensor ≡ length floats =
              length-append pixels (drop (length pixels) floats)
              ∙ omega (arith, fits, length-drop (length pixels) floats) in
            let written = keeps.with_input_lem graph floats tensor typed whole in
            let (left, after, same_size) =
              keeps.invoke_lem (tf.with_input graph tensor) tensor written in
            let next = tf.invoke (tf.with_input graph tensor) in
            (
              record {
                m_interpreter = some next;
                m_input_batch_size = b;
                m_input_height = h;
                m_input_width = w;
                m_input_channels = c;
              },
              rw (same, seen, typed) (ground arith),
              (next, left, refl, after, same_size ∙ whole ∙ size),
            )
      ]

  runs-IsLoaded :
      (b h w c : ℕ) (inputs : List Picture) (pilot : KerasPilot v tf)
      → 0 < b
      → 0 < h
      → 0 < w
      → 0 < c
      → All (IsColor v tf) inputs
      → IsLoaded v tf b h w c pilot.m_interpreter
      → (done : KerasPilot v tf) × (pilot_runs v tf (map some inputs) pilot ≡ ok done)
        × IsLoaded v tf b h w c done.m_interpreter
  unfolding pilot_runs
  runs-IsLoaded b h w c [] pilot hb hh hw hc colors loaded = (pilot, refl, loaded)
  runs-IsLoaded b h w c (picture ∷ inputs) pilot hb hh hw hc (color, colors) loaded =
      let (t, predicted, loaded') =
        predict-IsLoaded b h w c pilot.m_interpreter picture hb hh hw hc color loaded in
      let (done, rest, still) =
        runs-IsLoaded b h w c inputs (record { m_input = some picture; m_interpreter = t }) hb hh hw
          hc colors loaded' in
      (done, rw predicted rest, still)

  -- A pilot without a thread, over a network whose input tensor has the shape b, h, w, c, none of them 0, and
  -- holds floats: for any frames, in each of which `run` gets a picture that is empty or has 3 bytes for
  -- each pixel, the constructor and every call return; nothing is written past the tensor, the sizes that
  -- `load` read stay, and the tensor keeps its type and its 4 * b * c * h * w bytes.
  pub pilot_session :
      (path : Name) (model : tf.Model) (graph ready : tf.Graph) (b h w c : ℕ) (floats : List ℕ)
      (inputs : List Picture)
      → tf.build_from_file path ≡ some model
      → tf.build model ≡ some graph
      → tf.allocate_tensors graph ≡ some ready
      → tf.dims ready ≡ b ∷ h ∷ w ∷ c ∷ []
      → tf.input ready ≡ some floats
      → 0 < b
      → 0 < h
      → 0 < w
      → 0 < c
      → All (IsColor v tf) inputs
      → (done : KerasPilot v tf) × ((new_pilot v tf path >>= pilot_runs v tf (map some inputs))
          ≡ ok done)
        × IsLoaded v tf b h w c done.m_interpreter
  unfolding new_pilot
  pilot_session path model graph ready b h w c floats inputs found built ready_now shape typed hb hh
        hw hc colors =
      let loaded = load-loaded v tf is path model graph ready b h w c found built ready_now shape in
      let size = is.tensor_bytes graph ready b h w c floats ready_now shape typed in
      let first : KerasPilot v tf = record {
        m_input = some v.no_picture;
        m_interpreter = record {
          m_interpreter = some ready;
          m_input_batch_size = b;
          m_input_height = h;
          m_input_width = w;
          m_input_channels = c;
        };
      } in
      let (done, runs, still) =
        runs-IsLoaded b h w c inputs first hb hh hw hc colors (ready, floats, refl, typed, size) in
      (done, rw loaded runs, still)
