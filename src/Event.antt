-- ===== src/Event.antt =====
-- include/event.h and src/event.cpp: the condition variable, and the arithmetic of its deadlines.
-- pthreads and the clock are a parameter, `Pthread`; the mutex that a wait releases is theirs too.
pub mod Deadline
use donkeycar_gt.Prelude.{
  ℕ, ◌+◌, ◌*◌, ◌/◌, ◌%◌, ◌<◌, Bool, true, false, not, ◌&&◌, ◌==◌, if◌then◌else◌,
}
use donkeycar_gt.Prelude.Int.{ℤ, pos, ◌+ℤ◌, ltb_ℤ}
use donkeycar_gt.Prelude.Words.{u64_mod, to_u64, to_i64, fits_i64}
use donkeycar_gt.Run.{Run, ok, fault, overflow, require, assert, ◌>>=◌, ◌>>◌}

abbrev pub ns_per_second : ℕ
ns_per_second = 1_000_000_000

abbrev pub ns_per_ms : ℕ
ns_per_ms = 1_000_000

pub record Timespec : Type 0 where
  pub tv_sec : ℤ
  pub tv_nsec : ℤ

unfoldable pub ms_to_timespec : ℕ → Timespec
ms_to_timespec milliseconds =
    let ns = (milliseconds * ns_per_ms) % u64_mod in
    record { tv_sec = to_i64 (ns / ns_per_second); tv_nsec = to_i64 (ns % ns_per_second) }

-- A sum of two int64_t; its overflow is undefined.
abbrev pub add_i64 : ℤ → ℤ → Run ℤ
add_i64 a b = require (fits_i64 (a +ℤ b)) overflow >> ok (a +ℤ b)

-- `operator+`; the first argument says whether the build has assertions.
unfoldable pub add : Bool → Timespec → Timespec → Run Timespec
add debug lhs rhs = do
  assert debug (not (ltb_ℤ lhs.tv_sec (pos 0)) && not (ltb_ℤ rhs.tv_sec (pos 0)))
  nsec ← add_i64 lhs.tv_nsec rhs.tv_nsec
  let ns = to_u64 nsec
  sec ← add_i64 lhs.tv_sec rhs.tv_sec
  ok (record {
    tv_sec = to_i64 ((to_u64 sec + ns / ns_per_second) % u64_mod);
    tv_nsec = to_i64 (ns % ns_per_second);
  })

-- The clocks of `clock_gettime`.
pub data ClockId : Type 0 where
  clock_realtime clock_monotonic : ClockId

-- What event.cpp calls: each operation takes the state of the world to the next one. A wait returns
-- 0 when it was woken, and an error number otherwise.
pub record Pthread : Type 1 where
  pub World : Type 0
  pub Condattr : Type 0
  pub Cond : Type 0
  pub condattr_init : Condattr
  pub condattr_setclock : ClockId → Condattr → Condattr
  pub cond_init : Condattr → Cond
  pub clock_gettime : ClockId → World → ℕ × Timespec × World
  pub cond_signal : Cond → World → World
  pub cond_wait : Cond → World → World
  pub cond_timedwait : Cond → Timespec → World → ℕ × World

module _ (p : Pthread) where
  open p use {World, Cond, clock_gettime, cond_signal, cond_wait, cond_timedwait}

  pub record Event : Type 0 where
    pub m_cond : Cond

  -- The constructor.
  unfoldable pub new_event : Event
  new_event = record { m_cond = p.cond_init (p.condattr_setclock clock_monotonic p.condattr_init) }

  pub get_monotonic_clock_time : Bool → World → Run (Timespec × World)
  get_monotonic_clock_time debug w =
      let (ret, out, w') = clock_gettime clock_monotonic w in
      assert debug (ret == 0) >> ok (out, w')

  unfoldable pub trigger_all : Event → World → World
  trigger_all e w = cond_signal e.m_cond w

  unfoldable pub wait : Event → World → World
  wait e w = cond_wait e.m_cond w

  -- `wait` with a timeout: whether the thread was woken before the deadline.
  pub wait_for : Bool → Event → ℕ → World → Run (Bool × World)
  unfolding get_monotonic_clock_time
  wait_for debug e timeout_ms w = do
    (start, w') ← get_monotonic_clock_time debug w
    timeout ← add debug start (ms_to_timespec timeout_ms)
    let (ret, w'') = cond_timedwait e.m_cond timeout w'
    ok (ret == 0, w'')
