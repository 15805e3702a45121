-- ===== src/Mutex.antt =====
-- include/mutex.h and src/mutex.cpp: the named recursive mutex over a pthread mutex, which is a
-- parameter with the behaviour that POSIX documents for PTHREAD_MUTEX_RECURSIVE.
use donkeycar_gt.Prelude.{
  ℕ, suc, ◌≡◌, ◌≢◌, Bool, true, false, Option, none, some, ◌==◌, if◌then◌else◌, arith,
}
use donkeycar_gt.Run.{Run, blocks, the}

-- Mutexes and threads are named by numbers. `lock` is `none` while the thread would wait.
pub record PthreadMutex : Type 1 where
  pub World : Type 0
  pub lock : (thread mutex : ℕ) → World → Option World
  pub unlock : (thread mutex : ℕ) → World → World
  pub trylock : (thread mutex : ℕ) → World → ℕ × World
  pub ebusy : ℕ
  -- how often the thread has locked the mutex and not yet unlocked it
  pub depth : (thread mutex : ℕ) → World → ℕ
  pub depth-lock :
      (t m : ℕ) (w w' : World)
      → lock t m w ≡ some w'
      → (t' m' : ℕ)
      → depth t' m' w' ≡ (
          if t' == t then (if m' == m then suc (depth t m w) else depth t' m' w) else depth t' m' w)
  -- the owner, and anybody at a free mutex, need not wait
  pub lock_ready :
      (t m : ℕ) (w : World) → ((t' : ℕ) → t' ≢ t → depth t' m w ≡ 0) → lock t m w ≢ none
  pub depth-unlock :
      (t m d : ℕ) (w : World)
      → depth t m w ≡ suc d
      → (t' m' : ℕ)
      → depth t' m' (unlock t m w)
        ≡ (if t' == t then (if m' == m then d else depth t' m' w) else depth t' m' w)
  -- a `trylock` that returns an error number changes nothing
  pub trylock_failed : (t m : ℕ) (w : World) → (trylock t m w).0 ≢ 0 → (trylock t m w).1 ≡ w

module _ (p : PthreadMutex) where
  open p use {World, ebusy}

  unfoldable pub lock : (thread mutex : ℕ) → World → Run World
  lock t m w = the (p.lock t m w) blocks

  unfoldable pub unlock : (thread mutex : ℕ) → World → World
  unlock t m w = p.unlock t m w

  pub try_lock : (thread mutex : ℕ) → World → Bool × World
  try_lock t m w =
      let (ret, w') = p.trylock t m w in if ret == ebusy then (false, w') else (true, w')

  -- `try_lock` answers true also for an error number other than EBUSY, such as EAGAIN when the mutex
  -- has been locked too often, though the mutex was then not taken.
  pub try_lock_overclaims :
      (t m : ℕ) (w : World)
      → (p.trylock t m w).0 ≢ 0
      → (p.trylock t m w).0 ≢ ebusy
      → try_lock t m w ≡ (true, w)
  unfolding try_lock
  try_lock_overclaims t m w failed other = ground (arith, p.trylock_failed t m w)
