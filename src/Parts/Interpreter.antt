-- ===== src/Parts/Interpreter.antt =====
-- include/parts/interpreter.h, src/parts/interpreter.cpp and include/parts/keras.hpp: the part that feeds
-- pictures to a network. TensorFlow Lite is the parameter `TfLite`; memory is a list of bytes.
pub mod Tensor
use donkeycar_gt.Prelude.{
  ℕ, zero, suc, ◌+◌, ◌*◌, ◌≡◌, Bool, true, false, not, ◌||◌, List, [], ◌∷◌, ◌++◌, Option, none,
  some, length, drop, get_elem?, leb, ◌==◌, if◌then◌else◌,
}
use donkeycar_gt.Run.{
  Run, ok, fault, null_deref, dangling, overflow, exits, cv_error, require, the, ◌>>=◌, ◌>>◌,
}
use donkeycar_gt.Parts.Files.{Name}
use donkeycar_gt.Parts.Vision.{Vision}

-- What is called of TensorFlow Lite and of the layout of a picture.
pub record TfLite (v : Vision) : Type 1 where
  pub Model : Type 0
  pub Graph : Type 0
  -- null where they fail
  pub build_from_file : Name → Option Model
  pub build : Model → Option Graph
  pub allocate_tensors : Graph → Option Graph
  -- `tensor(inputs()[0])->dims->data`
  pub dims : Graph → List ℕ
  -- the bytes of `typed_input_tensor<float>(0)`, which is null if the tensor is not one of floats, and the
  -- graph with others
  pub input : Graph → Option (List ℕ)
  pub with_input : Graph → List ℕ → Graph
  pub invoke : Graph → Graph
  -- `data`, of `total() * elemSize()` bytes
  pub bytes : v.Picture → List ℕ
  pub elem_size : v.Picture → ℕ

module _ (v : Vision) (tf : TfLite v) where
  open v use {Picture, empty, resize}
  open tf use {
    Graph, build_from_file, build, allocate_tensors, dims, input, with_input, invoke, bytes,
  }

  pub record TfLiteInterpreter : Type 0 where
    pub m_interpreter : Option Graph
    pub m_input_batch_size : ℕ
    pub m_input_height : ℕ
    pub m_input_width : ℕ
    pub m_input_channels : ℕ

  unfoldable pub new_interpreter : TfLiteInterpreter
  new_interpreter = record {
    m_interpreter = none;
    m_input_batch_size = 0;
    m_input_height = 0;
    m_input_width = 0;
    m_input_channels = 0;
  }

  -- `load`: each `TFLITE_MINIMAL_CHECK` exits; a tensor with fewer dimensions is read out of bounds.
  unfoldable pub load : Name → Run TfLiteInterpreter
  load model_path = do
    model ← the (build_from_file model_path) exits
    graph ← the (build model) exits
    ready ← the (allocate_tensors graph) exits
    batch_size ← the (get_elem? (dims ready) 0) dangling
    height ← the (get_elem? (dims ready) 1) dangling
    width ← the (get_elem? (dims ready) 2) dangling
    channels ← the (get_elem? (dims ready) 3) dangling
    ok (record {
      m_interpreter = some ready;
      m_input_batch_size = batch_size;
      m_input_height = height;
      m_input_width = width;
      m_input_channels = channels;
    })

  -- `memcpy` to the front of a buffer: past its end it is undefined.
  abbrev pub copied : List ℕ → List ℕ → Run (List ℕ)
  copied source buffer =
      require (leb (length source) (length buffer)) overflow
      >> ok (source ++ drop (length source) buffer)

  -- `predict`. `cv::resize` throws if the size is empty.
  unfoldable pub predict : Picture → TfLiteInterpreter → Run TfLiteInterpreter
  predict picture t = if empty picture then ok t else (do
    require (not (t.m_input_width == 0 || t.m_input_height == 0)) cv_error
    let resized = resize t.m_input_width t.m_input_height picture
    graph ← the t.m_interpreter null_deref
    input_layer ← the (input graph) null_deref
    tensor ← copied (bytes resized) input_layer
    ok (record t { m_interpreter = some (invoke (with_input graph tensor)) }))
