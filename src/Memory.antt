-- ===== src/Memory.antt =====
-- include/memory.hpp: the store of the vehicle, over the map of LockedMap.antt.
pub mod Laws
pub mod Requests
use Prim.Native.String.{String}
use text.Mathlib.Text.{◌==◌ as str_eq}
use text.Mathlib.TextEquality.{eq_iff}
use donkeycar_gt.Prelude.{ℕ, Bool, [], Option, none, some}
use donkeycar_gt.Run.{Run, ok, fault, out_of_range, ◌>>=◌}
use donkeycar_gt.Mutex.{PthreadMutex}
use donkeycar_gt.LockedMap.{LockedMap, insert, at}
use donkeycar_gt.LockedMap.Table.{Key}

instance abbrev pub string_key : Key String
string_key = record { same = str_eq; same_iff = eq_iff }

-- `Datum`, a shared pointer to what the parts exchange.
abbrev pub Datum {ℓ} : Type ℓ → Type ℓ
Datum D = Option D

-- `Memory`, with its `m_data`.
abbrev pub Memory {ℓ} : Type ℓ → Type ℓ
Memory D = LockedMap String (Datum D)

unfoldable pub new_memory {ℓ} : {D : Type ℓ} → ℕ → Memory D
new_memory mutex = record { m_mutex = mutex; m_data = [] }

-- The handler of `get`.
abbrev pub or_null {ℓ} : {D : Type ℓ} → Run (Datum D) → Run (Datum D)
or_null (ok msg) = ok msg
or_null (fault out_of_range) = ok none
or_null (fault e) = fault e

module _ (p : PthreadMutex) (debug : Bool) (t : ℕ) where
  open p use {World}

  module _ {ℓ} {D : Type ℓ} where
    pub get : String → Memory D → World → Run (Datum D × World)
    get key m w = do (found, w') ← at p debug t key m w; msg ← or_null found; ok (msg, w')

    pub put : String → Datum D → Memory D → World → Run (Memory D × World)
    put key msg m w = insert p debug t key msg m w
