-- ===== src/Event/Deadline.antt =====
-- src/event.cpp: the sums of times are exact, so a timed wait has the deadline that was asked for.
use donkeycar_gt.Prelude.{
  ℕ, ◌+◌, ◌*◌, ◌/◌, ◌%◌, ◌<◌, ◌≤◌, ◌≡◌, ◌≢◌, refl, ◌^◌, Bool, true, false, ◌==◌, arith,
  if◌then◌else◌, Bool-cases, inl, inr,
}
use mathlib.Core.Path.{ap₂, ◌∙◌}
use donkeycar_gt.Prelude.Int.{pos, pos_part}
use donkeycar_gt.Prelude.Words.{i64_mod, +ℤ-pos}
use donkeycar_gt.Run.{ok, assert-true}
use donkeycar_gt.Event.{
  Timespec, Pthread, ClockId, clock_monotonic, new_event, ms_to_timespec, add, wait_for,
  ns_per_second, ns_per_ms,
}

-- A time as the clock gives it: not negative, with the nanoseconds below a second.
pub record IsNormal (t : Timespec) : Type 0 where
  pub sec : t.tv_sec ≡ pos (pos_part t.tv_sec)
  pub nsec : t.tv_nsec ≡ pos (pos_part t.tv_nsec)
  pub below : pos_part t.tv_nsec < ns_per_second

abbrev pub total_ns : Timespec → ℕ
total_ns t = pos_part t.tv_sec * ns_per_second + pos_part t.tv_nsec

abbrev pub normal : ℕ → ℕ → Timespec
normal s n = record { tv_sec = pos s; tv_nsec = pos n }

add-normal :
    (debug : Bool) (s n s' n' : ℕ)
    → n < ns_per_second
    → n' < ns_per_second
    → s + s' + 1 < i64_mod
    → add debug (normal s n) (normal s' n')
      ≡ ok (normal (s + s' + (n + n') / ns_per_second) ((n + n') % ns_per_second))
unfolding add
add-normal true s n s' n' h h' small = rw (+ℤ-pos n n', +ℤ-pos s s') (ground arith)
add-normal false s n s' n' h h' small = rw (+ℤ-pos n n', +ℤ-pos s s') (ground arith)

-- On times of the clock `operator+` is exact in nanoseconds, and its result is such a time again.
pub add-exact :
    (debug : Bool) (a b : Timespec)
    → IsNormal a
    → IsNormal b
    → pos_part a.tv_sec + pos_part b.tv_sec + 1 < i64_mod
    → (t : Timespec) × (add debug a b ≡ ok t) × IsNormal t × (total_ns t ≡ total_ns a + total_ns b)
add-exact debug a b na nb small = (
  normal (sa + sb + (xa + xb) / ns_per_second) ((xa + xb) % ns_per_second),
  ap₂ (add debug) (eta a na) (eta b nb) ∙ add-normal debug sa xa sb xb na.below nb.below small,
  record { sec = refl; nsec = refl; below = omega arith },
  omega arith,
)
  where
    sa : ℕ
    sa = pos_part a.tv_sec

    sb : ℕ
    sb = pos_part b.tv_sec

    xa : ℕ
    xa = pos_part a.tv_nsec

    xb : ℕ
    xb = pos_part b.tv_nsec

    eta : (t : Timespec) → IsNormal t → t ≡ normal (pos_part t.tv_sec) (pos_part t.tv_nsec)
    eta t n = λ i. record { tv_sec = n.sec i; tv_nsec = n.nsec i }

-- Any timeout that an `unsigned int` holds becomes that many milliseconds, with nothing lost.
pub ms_to_timespec-exact :
    (ms : ℕ)
    → ms < 2 ^ 32
    → IsNormal (ms_to_timespec ms)
      × (total_ns (ms_to_timespec ms) ≡ ms * ns_per_ms)
      × (pos_part (ms_to_timespec ms).tv_sec < 4_294_968)
unfolding ms_to_timespec
ms_to_timespec-exact ms h = (
  record { sec = ground arith; nsec = ground arith; below = ground arith },
  ground arith,
  ground arith,
)

-- What POSIX says of them. A condition variable has the clock of its attributes; `time` is what a clock shows,
-- in nanoseconds. A wait until a valid time that does not return 0 lasts until that clock shows the time.
pub record IsPthread (p : Pthread) : Type 0 where
  pub attr_clock : p.Condattr → ClockId
  pub cond_clock : p.Cond → ClockId
  pub time : ClockId → p.World → ℕ
  pub setclock : (c : ClockId) (a : p.Condattr) → attr_clock (p.condattr_setclock c a) ≡ c
  pub init_clock : (a : p.Condattr) → cond_clock (p.cond_init a) ≡ attr_clock a
  pub timed_out :
      (cond : p.Cond) (t : Timespec) (w : p.World)
      → IsNormal t
      → (p.cond_timedwait cond t w).0 ≢ 0
      → total_ns t ≤ time (cond_clock cond) (p.cond_timedwait cond t w).1

lasts :
    {p : Pthread} (is : IsPthread p) (cond : p.Cond) (t : Timespec) (w : p.World)
    → IsNormal t
    → {n : ℕ} → is.cond_clock cond ≡ clock_monotonic
    → total_ns t ≡ n
    → let (ret, later) = p.cond_timedwait cond t w in
      (if ret == 0 then 0 else n) ≤ is.time clock_monotonic later
lasts {p} is cond t w normal_t on_time total =
    let out = is.timed_out cond t w normal_t in
    elim (Bool-cases ((p.cond_timedwait cond t w).0 == 0)) [
      | inl woken ↦ rw woken (omega arith)
      | inr timed ↦
          let passed = rw on_time at (out (λ e. ground (arith, e))) in rw timed (omega arith)
    ]

-- A timed wait on a new event asks pthreads for the deadline `timeout_ms` milliseconds after the time that the
-- monotonic clock gave, as a valid time, and reports whether pthreads returned 0. If not, the monotonic clock shows
-- the deadline or a later time, so that a change of the time of day does not shorten the wait.
pub wait_for-deadline :
    (p : Pthread) (is : IsPthread p) (debug : Bool) (timeout_ms : ℕ) (w w' : p.World)
    (start : Timespec)
    → p.clock_gettime clock_monotonic w ≡ (0, start, w')
    → IsNormal start
    → timeout_ms < 2 ^ 32
    → pos_part start.tv_sec + 4_294_969 < i64_mod
    → (t : Timespec) × (ret : ℕ) × (later : p.World) × (p.cond_timedwait (new_event p).m_cond t w'
        ≡ (ret, later))
      × (wait_for p debug (new_event p) timeout_ms w ≡ ok (ret == 0, later))
      × IsNormal t
      × (total_ns t ≡ total_ns start + timeout_ms * ns_per_ms)
      × ((if ret == 0 then 0 else total_ns start + timeout_ms * ns_per_ms)
          ≤ is.time clock_monotonic later)
unfolding wait_for new_event
wait_for-deadline p is debug timeout_ms w w' start clock n small late =
    let (nt, exact, few) = ms_to_timespec-exact timeout_ms small in
    let (t, e, n', sum) = add-exact debug start (ms_to_timespec timeout_ms) n nt (omega arith) in
    let cond = (new_event p).m_cond in
    let on_time = is.init_clock _ ∙ is.setclock clock_monotonic p.condattr_init in
    let (ret, later) = p.cond_timedwait cond t w' in
    let total : total_ns t ≡ total_ns start + timeout_ms * ns_per_ms = omega arith in
    (
      t,
      ret,
      later,
      refl,
      rw (clock, wait_for, assert-true debug, e) refl,
      n',
      total,
      lasts is cond t w' n' on_time total,
    )
