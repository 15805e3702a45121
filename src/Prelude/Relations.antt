-- ===== src/Prelude/Relations.antt =====
-- A predicate of every entry of a list, by recursion, as the tactics read it.
use mathlib.Core.List.{List, [], ◌∷◌}

abbrev pub All {ℓ κ} : {X : Type ℓ} (Q : X → Type κ) (entries : List X) → Type κ
All Q [] = Unit
All Q (first ∷ rest) = Q first × All Q rest
