-- ===== src/LockedMap/Threads.antt =====
-- include/locked-map.hpp: one map and any number of threads that use it, in any order of their steps. An
-- operation is an entry of the monitor that `m_mutex` guards, which looks at the entries of the map and
-- writes what it computed.
pub mod History
use donkeycar_gt.Prelude.{ℕ, Bool, true, List, [], length, ◌==◌}
use donkeycar_gt.Run.{Run, out_of_range, the}
use donkeycar_gt.Monitor.{After, returns}
use donkeycar_gt.LockedMap.Table.{Key, find, assign}

pub data Op {ℓ} (K V : Type ℓ) : Type ℓ where
  insert : K → V → Op K V
  at : K → Op K V
  clear size empty : Op K V

pub data Answer {ℓ} (V : Type ℓ) : Type ℓ where
  done : Answer V
  value : Run V → Answer V
  count : ℕ → Answer V
  flag : Bool → Answer V

module _ {ℓ} {K V : Type ℓ} ⦃key : Key K⦄ where
  -- The body of an operation by itself.
  pub body : Op K V → List (K × V) → List (K × V) × Answer V
  unfolding assign find
  body (insert k v) m = (assign k v m, done)
  body (at k) m = (m, value (the (find k m) out_of_range))
  body clear m = ([], done)
  body size m = (m, count (length m))
  body empty m = (m, flag (length m == 0))

-- Each operation begins with `Lock lock(m_mutex)`.
abbrev pub locks {ℓ} : {K V : Type ℓ} → Op K V → Bool
locks (insert k v) = true
locks (at k) = true
locks clear = true
locks size = true
locks empty = true

-- No operation waits.
abbrev pub after {ℓ} : {K V : Type ℓ} → Answer V → After (Op K V)
after a = returns
