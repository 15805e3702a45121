-- ===== src/Store.antt =====
-- What the vehicle relies on in its store (include/memory.hpp): the operations of `Memory` as one thread
-- calls them, and their laws. Memory/Laws.antt fills it.
use Prim.Native.String.{String}
use text.Mathlib.Text.{◌==◌}
use donkeycar_gt.Prelude.{◌≡◌, Option, if◌then◌else◌}
use donkeycar_gt.Run.{Run, ok}

pub record Store (D : Type 0) : Type 1 where
  pub State : Type 0
  -- the call need not wait for another thread
  pub Ready : State → Type 0
  -- what the store answers at each key
  pub view : State → String → Option D
  pub get : String → State → Run (Option D × State)
  pub put : String → Option D → State → Run State
  pub get_lem :
      (k : String) (s : State)
      → Ready s
      → (s' : State) × (get k s ≡ ok (view s k, s'))
        × Ready s'
        × ((j : String) → view s' j ≡ view s j)
  pub put_lem :
      (k : String) (d : Option D) (s : State)
      → Ready s
      → (s' : State) × (put k d s ≡ ok s')
        × Ready s'
        × ((j : String) → view s' j ≡ (if k == j then d else view s j))
