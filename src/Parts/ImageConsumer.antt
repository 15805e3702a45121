-- ===== src/Parts/ImageConsumer.antt =====
-- include/parts/image-consumer.h and src/parts/image-consumer.cpp: the part that shows the pictures.
use donkeycar_gt.Prelude.{◌*◌, Option, none, some, if◌then◌else◌}
use donkeycar_gt.Run.{Run, ok, null_deref, the, ◌>>=◌}
use donkeycar_gt.Parts.Vision.{Vision}

module _ (v : Vision) where
  open v use {Picture, rows, cols}

  -- `update`, with the picture that it shows, if any.
  unfoldable pub update : Option Picture → Run (Option Picture)
  update m_input = do
    frame ← the m_input null_deref
    if v.empty frame then ok none else ok (some (v.resize (cols frame * 3) (rows frame * 3) frame))
