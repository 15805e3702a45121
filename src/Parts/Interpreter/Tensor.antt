-- ===== src/Parts/Interpreter/Tensor.antt =====
-- src/parts/interpreter.cpp: what `predict` leaves in the input tensor of a loaded network.
use native.Mathlib.Nat.{mul-le-mul_right, one-le-mul}
use donkeycar_gt.Prelude.{
  ℕ, ◌*◌, ◌≤◌, ◌<◌, ◌≡◌, refl, ◌∙◌, ap, length-append, length-drop, false, [], ◌∷◌, ◌++◌, List,
  some, none, length, drop, arith,
}
use donkeycar_gt.Run.{ok, fault, null_deref, ◌>>=◌}
use donkeycar_gt.Parts.Files.{Name}
use donkeycar_gt.Parts.Vision.{Vision}
use donkeycar_gt.Parts.Interpreter.{TfLite, load, predict}

-- The documented sizes: a resized picture has its size in pixels and the type of the picture; a tensor of
-- floats, as the one that is not null, takes four bytes for each.
pub record IsTfLite (v : Vision) (tf : TfLite v) : Type 0 where
  pub resized_bytes :
      (cols rows : ℕ) (img : v.Picture)
      → length (tf.bytes (v.resize cols rows img)) ≡ tf.elem_size img * (rows * cols)
  pub tensor_bytes :
      (graph ready : tf.Graph) (b h w c : ℕ) (floats : List ℕ)
      → tf.allocate_tensors graph ≡ some ready
      → tf.dims ready ≡ b ∷ h ∷ w ∷ c ∷ []
      → tf.input ready ≡ some floats
      → length floats ≡ 4 * (b * c) * (h * w)

module _ (v : Vision) (tf : TfLite v) (is : IsTfLite v tf) where
  pub fits_tensor : (b c n : ℕ) → 0 < b → 0 < c → 3 * n ≤ 4 * (b * c) * n
  fits_tensor b c n hb hc =
      let bc = one-le-mul hb hc in mul-le-mul_right {m = 3} {n = 4 * (b * c)} n (omega arith)

  pub load-loaded :
      (path : Name) (model : tf.Model) (graph ready : tf.Graph) (b h w c : ℕ)
      → tf.build_from_file path ≡ some model
      → tf.build model ≡ some graph
      → tf.allocate_tensors graph ≡ some ready
      → tf.dims ready ≡ b ∷ h ∷ w ∷ c ∷ []
      → load v tf path
        ≡ ok (record {
          m_interpreter = some ready;
          m_input_batch_size = b;
          m_input_height = h;
          m_input_width = w;
          m_input_channels = c;
        })
  unfolding load
  load-loaded path model graph ready b h w c found built ready_now shape =
      rw (found, built, ready_now, shape) refl

  -- A network whose input tensor has the shape b, h, w, c, none of them 0, and holds floats, is loaded, and a
  -- colour picture of 3 bytes for each pixel, that holds something, is given to it. Nothing is written past
  -- the tensor; of its 4 * b * c * h * w bytes the first 3 * h * w are those of the resized picture, one
  -- after the other, and all others stay what they were.
  pub predict-tensor :
      (path : Name) (model : tf.Model) (graph ready : tf.Graph) (b h w c : ℕ) (floats : List ℕ)
      (picture : v.Picture)
      → tf.build_from_file path ≡ some model
      → tf.build model ≡ some graph
      → tf.allocate_tensors graph ≡ some ready
      → tf.dims ready ≡ b ∷ h ∷ w ∷ c ∷ []
      → tf.input ready ≡ some floats
      → 0 < b
      → 0 < h
      → 0 < w
      → 0 < c
      → v.empty picture ≡ false
      → tf.elem_size picture ≡ 3
      → let pixels = tf.bytes (v.resize w h picture) in
        let tensor = pixels ++ drop (3 * (h * w)) floats in
        ((load v tf path >>= predict v tf picture)
          ≡ ok (record {
            m_interpreter = some (tf.invoke (tf.with_input ready tensor));
            m_input_batch_size = b;
            m_input_height = h;
            m_input_width = w;
            m_input_channels = c;
          }))
        × (length pixels ≡ 3 * (h * w))
        × (length tensor ≡ 4 * (b * c) * (h * w))
  unfolding predict
  predict-tensor path model graph ready b h w c floats picture found built ready_now shape typed hb
        hh hw hc seen color =
      let pixels = tf.bytes (v.resize w h picture) in
      let size : length pixels ≡ 3 * (h * w) =
        is.resized_bytes w h picture ∙ ap (λ k. k * (h * w)) color in
      let room : length floats ≡ 4 * (b * c) * (h * w) =
        is.tensor_bytes graph ready b h w c floats ready_now shape typed in
      let fits : length pixels ≤ length floats = rw (size, room) (fits_tensor b c (h * w) hb hc) in
      (
        rw
            (
              load-loaded path model graph ready b h w c found built ready_now shape,
              seen,
              typed,
              ← size,
            )
            (ground arith),
        size,
        length-append pixels (drop (3 * (h * w)) floats)
            ∙ omega (arith, size, room, fits, length-drop (3 * (h * w)) floats),
      )

  -- A loaded network whose input tensor does not hold floats: `predict` writes through a null pointer.
  pub predict-null :
      (graph : tf.Graph) (b h w c : ℕ) (picture : v.Picture)
      → tf.input graph ≡ none
      → 0 < h
      → 0 < w
      → v.empty picture ≡ false
      → predict v tf picture (record {
        m_interpreter = some graph;
        m_input_batch_size = b;
        m_input_height = h;
        m_input_width = w;
        m_input_channels = c;
      })
        ≡ fault null_deref
  unfolding predict
  predict-null graph b h w c picture untyped hh hw seen = rw (seen, untyped) (ground arith)
