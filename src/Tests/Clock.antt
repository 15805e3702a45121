-- ===== src/Tests/Clock.antt =====
-- src/event.cpp on a concrete clock.
use donkeycar_gt.Prelude.{ℕ, ◌+◌, ◌-◌, ◌*◌, ◌≡◌, refl, ◌<◌, ◌≤◌, ◌==◌, true, if◌then◌else◌, arith}
use donkeycar_gt.Prelude.Int.{◌+ℤ◌, pos, negsuc, pos_part}
use donkeycar_gt.Run.{ok, fault, assert_failed}
use donkeycar_gt.Event.{
  Timespec, Pthread, ClockId, clock_realtime, clock_monotonic, new_event, ms_to_timespec, add,
  wait_for, ns_per_second, ns_per_ms,
}
use donkeycar_gt.Event.Deadline.{IsNormal, IsPthread, normal, total_ns, wait_for-deadline}

-- The world is the time in seconds since the start, 50 years after the epoch; a timed wait times out (ETIMEDOUT is
-- 110) when the clock of the condition variable shows the deadline.
abbrev shows : ClockId → ℕ → ℕ
shows clock_realtime w = 1_577_880_000 + w
shows clock_monotonic w = w

-- The first time in seconds that is not before a deadline.
abbrev wakes_at : ClockId → Timespec → ℕ
wakes_at clock_realtime t = pos_part t.tv_sec + 1 - 1_577_880_000
wakes_at clock_monotonic t = pos_part t.tv_sec + 1

abbrev ticking : Pthread
ticking = record {
  World = ℕ;
  Condattr = ClockId;
  Cond = ClockId;
  condattr_init = clock_realtime;
  condattr_setclock = λ c a. c;
  cond_init = λ a. a;
  clock_gettime = λ c w. (0, normal (shows c w) 0, w);
  cond_signal = λ cond w. w;
  cond_wait = λ cond w. w;
  cond_timedwait = λ cond t w. (110, wakes_at cond t);
}

ticking_timed_out :
    (cond : ClockId) (t : Timespec)
    → IsNormal t
    → total_ns t ≤ shows cond (wakes_at cond t) * ns_per_second
ticking_timed_out clock_realtime t n = omega (arith, n.below)
ticking_timed_out clock_monotonic t n = omega (arith, n.below)

ticking-IsPthread : IsPthread ticking
ticking-IsPthread = record {
  attr_clock = λ a. a;
  cond_clock = λ cond. cond;
  time = λ c w. shows c w * ns_per_second;
  setclock = λ c a. refl;
  init_clock = λ a. refl;
  timed_out = λ cond t w n failed. ticking_timed_out cond t n;
}

normal-IsNormal : (s n : ℕ) → n < 1_000_000_000 → IsNormal (normal s n)
normal-IsNormal s n h = record { sec = refl; nsec = refl; below = h }

carries : add true (normal 3 999_999_999) (ms_to_timespec 1_500) ≡ ok (normal 5 499_999_999)
unfolding add ms_to_timespec ◌+ℤ◌
carries = refl

before_the_epoch :
    add true (record { tv_sec = negsuc 0; tv_nsec = pos 0 }) (normal 1 0) ≡ fault assert_failed
unfolding add
before_the_epoch = refl

wait_for-deadline_example :
    (t : Timespec) × (ret : ℕ) × (later : ℕ) × (ticking.cond_timedwait
        (new_event ticking).m_cond
        t
        7
      ≡ (ret, later))
    × (wait_for ticking true (new_event ticking) 100 7 ≡ ok (ret == 0, later))
    × IsNormal t
    × (total_ns t ≡ 7_000_000_000 + 100 * ns_per_ms)
    × ((if ret == 0 then 0 else 7_000_000_000 + 100 * ns_per_ms)
        ≤ ticking-IsPthread.time clock_monotonic later)
wait_for-deadline_example =
    wait_for-deadline ticking ticking-IsPthread true 100 7 7 (normal 7 0) refl
      (normal-IsNormal 7 0 (omega arith)) (omega arith) (omega arith)
