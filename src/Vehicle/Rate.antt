-- ===== src/Vehicle/Rate.antt =====
-- src/vehicle.cpp, `start_blocking`: how long the frames of the loop last with the sleeps of `throttle`.
-- `sleep_for` is taken to sleep for the time that it is given.
use donkeycar_gt.Prelude.{
  ℕ, ◌+◌, ◌*◌, ◌≤◌, ◌≡◌, refl, List, [], ◌∷◌, length, leb, if◌then◌else◌, Bool-cases, inl, inr, ◌⊎◌,
  arith,
}
use donkeycar_gt.Prelude.Relations.{All}
use donkeycar_gt.Run.{Run, ok, fault, overflow, ◌>>=◌}
use donkeycar_gt.Vehicle.Throttle.{
  throttle, slept_ns, period_ns, longest, throttle_paces, throttle-ok, throttle_overflows,
}

-- The nanoseconds of the turns of `while (m_running)`, where the list says how long each `update_parts` took.
unfoldable pub loop_time : List ℕ → Run ℕ
loop_time [] = ok 0
loop_time (took ∷ later) = do
  slept ← throttle took
  rest ← loop_time later
  ok (took + slept_ns slept + rest)

-- The time of frames that fill their period, or are longer.
abbrev pub full_time : List ℕ → ℕ
full_time [] = 0
full_time (took ∷ later) = (if leb took period_ns then period_ns else took) + full_time later

-- A frame after which `throttle` can be called.
abbrev pub IsPaced : ℕ → Type 0
IsPaced took = took ≤ longest

paced_times :
    (times : List ℕ)
    → All IsPaced times
    → (ns : ℕ) × (loop_time times ≡ ok ns)
      × (99_000_000 * length times ≤ ns)
      × (ns ≤ full_time times)
unfolding loop_time
paced_times [] h = (0, refl, omega arith, omega arith)
paced_times (took ∷ later) (here, rest) =
    let (slept, paced, early, late) = throttle_paces took here in
    let (ns, total, least, most) = paced_times later rest in
    (
      took + slept_ns slept + ns,
      rw (paced, total) refl,
      elim (Bool-cases (leb took period_ns)) [
        | inl in_time ↦ omega (arith, early (ground arith))
        | inr over ↦ let e = late (ground arith) in ground arith
      ],
      elim (Bool-cases (leb took period_ns)) [
        | inl in_time ↦ let e = early (ground arith) in ground arith
        | inr over ↦ let e = late (ground arith) in rw e (ground arith)
      ],
    )

-- The loop does not run too fast, nor too slow: if each frame takes up to 2 247 483 648 ns then all frames last,
-- with their sleeps, at least 99 ms each, and together at most what they would if each lasted 100 ms or, if
-- its `update_parts` took longer than that, as long as this. If some frame takes longer than that
-- number the conversion to `int` after it is undefined.
pub loop_time-rate :
    (times : List ℕ)
    → (All IsPaced times
        × ((ns : ℕ) × (loop_time times ≡ ok ns)
            × (99_000_000 * length times ≤ ns)
            × (ns ≤ full_time times)))
      ⊎ ((¬ All IsPaced times) × (loop_time times ≡ fault overflow))
unfolding loop_time
loop_time-rate [] = inl (tt, paced_times [] tt)
loop_time-rate (took ∷ later) = elim (Bool-cases (leb took longest)) [
  | inl in_time ↦ elim (loop_time-rate later) [
    | inl (paced, _) ↦
        let all : All IsPaced (took ∷ later) = (ground arith, paced) in
        inl (all, paced_times (took ∷ later) all)
    | inr (late, stops) ↦
        let (slept, done) = throttle-ok took (ground arith) in
        inr (λ h. late h.1, rw (done, stops) refl)
  ]
  | inr over ↦ inr (λ h. ground (arith, h.0), rw (throttle_overflows took (ground arith)) refl)
]
