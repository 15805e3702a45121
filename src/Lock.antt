-- ===== src/Lock.antt =====
-- include/lock.hpp: the RAII lock, over the mutex of Mutex.antt.
pub mod Held
pub mod Release
pub mod Balance
use donkeycar_gt.Prelude.{
  ℕ, zero, suc, ◌-◌, ◌≡◌, Bool, true, false, Option, none, some, ltb, if◌then◌else◌,
}
use donkeycar_gt.Run.{Run, ok, fault, null_deref, assert, the, ◌>>=◌, ◌>>◌}
use donkeycar_gt.Mutex
use donkeycar_gt.Mutex.{PthreadMutex}

-- A `Lock` object. The count is an `int` that is only ever 0 or 1.
pub record Lock : Type 0 where
  pub m_mutex : Option ℕ
  pub m_lock_cnt : ℕ

unfoldable pub default_ctor : Lock
default_ctor = record { m_mutex = none; m_lock_cnt = 0 }

-- `operator=(Lock &&)` swaps: the new value of `*this`, and that of `other`.
pub move_assign : Lock → Lock → Lock × Lock
move_assign this other = (
  record this { m_mutex = other.m_mutex; m_lock_cnt = other.m_lock_cnt },
  record other { m_mutex = this.m_mutex; m_lock_cnt = this.m_lock_cnt },
)

-- The new object, and what is left of `other`.
unfoldable pub move_ctor : Lock → Lock × Lock
unfolding move_assign default_ctor
move_ctor other = move_assign default_ctor other

-- The operations of thread `t`; `debug` says whether the build has assertions.
module _ (p : PthreadMutex) (debug : Bool) (t : ℕ) where
  open p use {World}

  unfoldable pub ctor : ℕ → World → Run (Lock × World)
  unfolding Mutex.lock
  ctor mutex w = do
    w' ← Mutex.lock p t mutex w
    ok (record { m_mutex = some mutex; m_lock_cnt = 1 }, w')

  unfoldable pub copy_ctor : Lock → World → Run (Lock × World)
  unfolding ctor
  copy_ctor other w = do mutex ← the other.m_mutex null_deref; ctor mutex w

  abbrev is_set : Option ℕ → Bool
  is_set none = false
  is_set (some m) = true

  unlock : Lock → World → Run (Lock × World)
  unfolding Mutex.unlock
  unlock l w = do
    assert debug (is_set l.m_mutex)
    mutex ← the l.m_mutex null_deref
    ok (record l { m_lock_cnt = l.m_lock_cnt - 1 }, Mutex.unlock p t mutex w)

  -- `while (m_lock_cnt > 0) unlock();`, on fuel.
  release : ℕ → Lock → World → Run World
  unfolding unlock
  release zero l w = ok w
  release (suc fuel) l w =
      if ltb 0 l.m_lock_cnt then (do (l', w') ← unlock l w; release fuel l' w') else ok w

  -- Every round takes one from the count, so the count is fuel enough.
  unfoldable pub dtor : Lock → World → Run World
  unfolding release
  dtor l w = release l.m_lock_cnt l w
