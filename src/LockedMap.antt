-- ===== src/LockedMap.antt =====
-- include/locked-map.hpp: the map under a lock, over the Lock of Lock.antt.
-- The `std::unordered_map` is a list of entries; nothing here depends on their order. An operation
-- holds the mutex from its first line to its return, so its body is computed between the constructor
-- and the destructor of one `Lock`; that destructor also runs when the body throws.
pub mod Table
pub mod Locking
pub mod Pointers
pub mod Threads
use donkeycar_gt.Prelude.{ℕ, Bool, true, false, ◌≡◌, List, [], ◌∷◌, Option, length, ◌==◌}
use donkeycar_gt.Run.{Run, ok, fault, out_of_range, the, ◌>>=◌}
use donkeycar_gt.Mutex.{PthreadMutex}
use donkeycar_gt.Lock.{Lock, ctor, dtor}
use Table.{Key, find, assign}

pub record LockedMap {ℓ κ} (K : Type ℓ) (V : Type κ) : Type (ℓ ⊔ κ) where
  pub m_mutex : ℕ
  pub m_data : List (K × V)

module _ (p : PthreadMutex) (debug : Bool) (t : ℕ) where
  open p use {World}

  -- `Lock lock(m_mutex);`, the value of the body, and the end of the scope.
  pub locked {ℓ} : {A : Type ℓ} → ℕ → A → World → Run (A × World)
  locked mutex body w = do (l, w1) ← ctor p debug t mutex w; w2 ← dtor p debug t l w1; ok (body, w2)

  module _ {ℓ κ} {K : Type ℓ} {V : Type κ} ⦃key : Key K⦄ where
    unfoldable pub insert : K → V → LockedMap K V → World → Run (LockedMap K V × World)
    unfolding assign
    insert k v m w = locked m.m_mutex (record m { m_data = assign k v m.m_data }) w

    -- What is thrown inside is a value of the outer result, as the lock is released on that path too.
    unfoldable pub at : K → LockedMap K V → World → Run (Run V × World)
    unfolding find
    at k m w = locked m.m_mutex (the (find k m.m_data) out_of_range) w

  module _ {ℓ κ} {K : Type ℓ} {V : Type κ} where
    -- For a `DataType` that is no pointer.
    unfoldable pub clear : LockedMap K V → World → Run (LockedMap K V × World)
    clear m w = locked m.m_mutex (record m { m_data = [] }) w

    unfoldable pub size : LockedMap K V → World → Run (ℕ × World)
    size m w = locked m.m_mutex (length m.m_data) w

    unfoldable pub empty : LockedMap K V → World → Run (Bool × World)
    empty m w = locked m.m_mutex (length m.m_data == 0) w
