-- ===== src/Tests/Network.antt =====
-- src/parts/interpreter.cpp: a network with an input tensor of one picture of 2 by 2 pixels.
use donkeycar_gt.Prelude.{
  ℕ, ◌*◌, ◌≡◌, refl, ◌∙◌, ap, true, List, [], ◌∷◌, ◌++◌, some, length, drop, replicate,
  length-replicate, arith, map, inl, inr,
}
use donkeycar_gt.Run.{ok, ◌>>=◌}
use donkeycar_gt.Parts.Interpreter.{TfLite, load, predict}
use donkeycar_gt.Parts.Pilot.{KerasPilot, new_pilot, pilot_runs}
use donkeycar_gt.Parts.Pilot.Session.{KeepsTensor, IsLoaded, pilot_session}
use donkeycar_gt.Parts.Interpreter.Tensor.{IsTfLite, predict-tensor}
use donkeycar_gt.Tests.Pictures.{Stripes, stripes, road}

abbrev bytes : Stripes → List ℕ
bytes img = replicate (3 * (img.0 * length img.1)) 7

-- A graph is its input tensor.
abbrev small : TfLite stripes
small = record {
  Model = Unit {0};
  Graph = List ℕ;
  build_from_file = λ path. some tt;
  build = λ model. some [];
  allocate_tensors = λ graph. some (replicate 48 0);
  dims = λ graph. 1 ∷ 2 ∷ 2 ∷ 3 ∷ [];
  input = λ graph. some graph;
  with_input = λ graph tensor. tensor;
  invoke = λ graph. graph;
  bytes = bytes;
  elem_size = λ img. 3;
}

small_resized :
    (cols rows : ℕ) (img : Stripes)
    → length (bytes (stripes.resize cols rows img)) ≡ 3 * (rows * cols)
small_resized cols rows img =
    length-replicate (3 * (rows * length (replicate cols true))) 7
    ∙ ap (λ n. 3 * (rows * n)) (length-replicate cols true)

small_tensor :
    (graph ready : List ℕ) (b h w c : ℕ) (floats : List ℕ)
    → small.allocate_tensors graph ≡ some ready
    → small.dims ready ≡ b ∷ h ∷ w ∷ c ∷ []
    → small.input ready ≡ some floats
    → length floats ≡ 4 * (b * c) * (h * w)
small_tensor graph ready b h w c floats made shape typed = ground arith

small-IsTfLite : IsTfLite stripes small
small-IsTfLite = record { resized_bytes = small_resized; tensor_bytes = small_tensor }

predict-tensor_example :
    let pixels = bytes (stripes.resize 2 2 road) in
    let tensor = pixels ++ drop (3 * (2 * 2)) (replicate 48 0) in
    ((load stripes small [] >>= predict stripes small road)
      ≡ ok (record {
        m_interpreter = some tensor;
        m_input_batch_size = 1;
        m_input_height = 2;
        m_input_width = 2;
        m_input_channels = 3;
      }))
    × (length pixels ≡ 3 * (2 * 2))
    × (length tensor ≡ 4 * (1 * 3) * (2 * 2))
predict-tensor_example =
    predict-tensor stripes small small-IsTfLite [] tt [] (replicate 48 0) 1 2 2 3 (replicate 48 0)
      road refl refl refl refl refl (omega arith) (omega arith) (omega arith) (omega arith) refl
      refl

small-KeepsTensor : KeepsTensor stripes small
small-KeepsTensor = record {
  with_input_lem = λ graph floats tensor typed same. refl;
  invoke_lem = λ graph floats typed. (floats, typed, refl);
}

-- A picture, an empty one, and a picture.
pilot_session_example :
    (done : KerasPilot stripes small) × ((new_pilot stripes small []
        >>= pilot_runs stripes small (map some (road ∷ (0, []) ∷ road ∷ [])))
      ≡ ok done)
    × IsLoaded stripes small 1 2 2 3 done.m_interpreter
pilot_session_example =
    pilot_session stripes small small-IsTfLite small-KeepsTensor [] tt [] (replicate 48 0) 1 2 2 3
      (replicate 48 0) (road ∷ (0, []) ∷ road ∷ []) refl refl refl refl refl (omega arith)
      (omega arith) (omega arith) (omega arith) (inr refl, (inl refl, (inr refl, tt)))
