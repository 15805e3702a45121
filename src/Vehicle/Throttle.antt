-- ===== src/Vehicle/Throttle.antt =====
-- src/vehicle.cpp, `throttle`: how long the vehicle sleeps at the end of a frame.
-- The doubles are exact here: the period is a whole number of nanoseconds, as are the durations, far
-- below 2 ^ 53, and the quotient by 1e6 is rounded to a whole number only if it is one.
use donkeycar_gt.Prelude.{
  ℕ, suc, ◌+◌, ◌-◌, ◌*◌, ◌/◌, ◌^◌, ◌≤◌, ◌<◌, ◌≡◌, refl, Bool, Option, none, some, ltb,
  if◌then◌else◌, arith, ◌==◌, leb, Bool-cases, inl, inr,
}
use donkeycar_gt.Prelude.Int.{ℤ, pos, negsuc, ◌-ℤ◌}
use donkeycar_gt.Run.{Run, ok, fault, overflow, require, ◌>>◌}

-- `1.0 / m_fps * 1e9` for the `m_fps{10.0}` that nothing changes.
abbrev pub period_ns : ℕ
period_ns = 100_000_000

abbrev pub fits_int : ℤ → Bool
fits_int (pos n) = ltb n (2 ^ 31)
fits_int (negsuc n) = ltb n (2 ^ 31)

-- An integer over 1e6, cut off towards zero.
abbrev pub to_ms : ℤ → ℤ
to_ms (pos n) = pos (n / 1_000_000)
to_ms (negsuc n) = let k = suc n / 1_000_000 in if k == 0 then pos 0 else negsuc (k - 1)

-- `if (sleepy_time_ms > 0.0) sleep_for(...)`
abbrev pub sleep_for : ℤ → Option ℕ
sleep_for (pos n) = if ltb 0 n then some n else none
sleep_for (negsuc n) = none

-- The milliseconds to sleep, if any, after a frame that took `duration` nanoseconds. The cast of a
-- double out of range to `int` is undefined.
unfoldable pub throttle : ℕ → Run (Option ℕ)
throttle duration =
    let left = pos period_ns -ℤ pos duration in
    require (fits_int left) overflow >> ok (sleep_for (to_ms left))

abbrev pub slept_ns : Option ℕ → ℕ
slept_ns none = 0
slept_ns (some ms) = ms * 1_000_000

in_time : (d : ℕ) → d ≤ period_ns → pos period_ns -ℤ pos d ≡ pos (period_ns - d)
unfolding ◌-ℤ◌
in_time d h = ground arith

too_late : (d : ℕ) → period_ns < d → pos period_ns -ℤ pos d ≡ negsuc (d - period_ns - 1)
unfolding ◌-ℤ◌
too_late d h = ground arith

sleep_for-late : (n : ℕ) → sleep_for (to_ms (negsuc n)) ≡ none
sleep_for-late n = ground arith

-- A frame of up to 2 247 483 648 ns comes to a result. If it took at most the period, the frame and the
-- sleep together last at most the period, and less than a millisecond less; if it took longer the
-- vehicle does not sleep.
pub throttle_paces :
    (duration : ℕ)
    → duration ≤ period_ns + 2 ^ 31
    → (slept : Option ℕ) × (throttle duration ≡ ok slept)
      × (duration ≤ period_ns
          → (duration + slept_ns slept ≤ period_ns)
            × (period_ns < duration + slept_ns slept + 1_000_000))
      × (period_ns < duration → slept ≡ none)
unfolding throttle
throttle_paces d h = elim (Bool-cases (leb d period_ns)) [
  | inl early ↦
      let e = in_time d (ground arith) in
      (
        sleep_for (to_ms (pos (period_ns - d))),
        rw e (ground arith),
        λ _. (ground arith, ground arith),
        λ late. absurd (ground arith),
      )
  | inr late ↦
      let e = too_late d (ground arith) in
      (
        none,
        rw (e, sleep_for-late (d - period_ns - 1)) (ground arith),
        λ early. absurd (ground arith),
        λ _. refl,
      )
]

-- The longest frame, in nanoseconds, that `throttle` can be called after.
abbrev pub longest : ℕ
longest = period_ns + 2 ^ 31

pub throttle-ok : (d : ℕ) → d ≤ longest → (slept : Option ℕ) × (throttle d ≡ ok slept)
throttle-ok d h = let (slept, done, _, _) = throttle_paces d h in (slept, done)

-- After a longer frame the conversion to `int` is undefined.
pub throttle_overflows :
    (duration : ℕ) → period_ns + 2 ^ 31 < duration → throttle duration ≡ fault overflow
unfolding throttle ◌-ℤ◌
throttle_overflows duration h = ground arith
