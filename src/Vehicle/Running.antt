-- ===== src/Vehicle/Running.antt =====
-- src/vehicle.cpp, `start_blocking`: the loop over the frames, for vehicles that no frame makes fail.
use donkeycar_gt.Prelude.Relations.{All}
use donkeycar_gt.Vehicle.Throttle.{longest, throttle-ok}
use donkeycar_gt.Prelude.{
  ℕ, suc, ◌+◌, arith, ◌≤◌, ◌≡◌, refl, ◌∙◌, Bool, true, false, List, [], ◌∷◌, if◌then◌else◌,
}
use donkeycar_gt.Run.{ok}
use donkeycar_gt.Store.{Store}
use donkeycar_gt.Vehicle.{
  PartClass, Vehicle, update_parts, signal_handler, for_each, frames, start_blocking,
}

-- Whether a signal comes in one of the frames.
abbrev pub any_signal : List (ℕ × Bool) → Bool
any_signal [] = false
any_signal ((took, signal) ∷ later) = if signal then true else any_signal later

-- The frames that the loop begins: all up to the one with the signal.
abbrev pub frames_run : List (ℕ × Bool) → ℕ
frames_run [] = 0
frames_run ((took, signal) ∷ later) = if signal then 1 else frames_run later + 1

-- No frame takes longer than `throttle` can be called after.
abbrev pub InTime : ℕ × Bool → Type 0
InTime (took, signal) = took ≤ longest

module _ {D : Type 0} (class : PartClass D) (store : Store D) where
  -- What holds of the vehicle after so many frames: a frame that does not end the loop adds one, and
  -- `stop` none.
  pub record Invariant (Inv : ℕ → Vehicle class store → Type 0) : Type 0 where
    pub frame :
        (n : ℕ) (car : Vehicle class store)
        → Inv n car
        → (car' : Vehicle class store) × (update_parts class store car ≡ ok car')
          × Inv (suc n) car'
          × (car'.m_running ≡ car.m_running)
    pub halt :
        (n : ℕ) (car : Vehicle class store)
        → Inv n car
        → (car' : Vehicle class store) × (signal_handler class store car ≡ ok car')
          × Inv n car'
          × (car'.m_running ≡ false)

  frames-stopped :
      (signals : List (ℕ × Bool)) (car : Vehicle class store)
      → car.m_running ≡ false
      → frames class store signals car ≡ ok (car, true)
  unfolding frames
  frames-stopped [] car stopped = rw stopped refl
  frames-stopped ((took, signal) ∷ later) car stopped = rw stopped refl

  -- The loop runs the frames up to a signal, and is over exactly if there is one.
  pub frames-Invariant :
      (Inv : ℕ → Vehicle class store → Type 0)
      → Invariant Inv
      → (signals : List (ℕ × Bool)) (n : ℕ) (car : Vehicle class store) → All InTime signals
      → Inv n car
      → car.m_running ≡ true
      → (car' : Vehicle class store) × (frames class store signals car
          ≡ ok (car', any_signal signals))
        × Inv (n + frames_run signals) car'
  unfolding frames
  frames-Invariant Inv keeps [] n car in_time inv running =
      let here : n + 0 ≡ n = omega arith in (car, rw running refl, rw here inv)
  frames-Invariant Inv keeps ((took, true) ∷ later) n car in_time inv running =
      let (car1, framed, inv1, _) = keeps.frame n car inv in
      let (slept, paced) = throttle-ok took in_time.0 in
      let (car2, halted, inv2, stopped) = keeps.halt (suc n) car1 inv1 in
      let count : n + 1 ≡ suc n = omega arith in
      (
        car2,
        rw (framed, running, paced, halted, frames-stopped later car2 stopped) refl,
        rw count inv2,
      )
  frames-Invariant Inv keeps ((took, false) ∷ later) n car in_time inv running =
      let (car1, framed, inv1, same) = keeps.frame n car inv in
      let (slept, paced) = throttle-ok took in_time.0 in
      let (car2, rest, inv2) =
        frames-Invariant Inv keeps later (suc n) car1 in_time.1 inv1 (same ∙ running) in
      let count : n + (frames_run later + 1) ≡ suc n + frames_run later = omega arith in
      (car2, rw (framed, running, paced, rest) refl, rw count inv2)

  pub start_blocking-Invariant :
      (Inv : ℕ → Vehicle class store → Type 0)
      → Invariant Inv
      → (signals : List (ℕ × Bool)) (car : Vehicle class store) (parts : List class.Part)
      → for_each class store class.start car.m_parts ≡ ok parts
      → All InTime signals
      → Inv 0 (record car { m_parts = parts; m_running = true })
      → (car' : Vehicle class store) × (start_blocking class store signals car
          ≡ ok (car', any_signal signals))
        × Inv (frames_run signals) car'
  unfolding start_blocking
  start_blocking-Invariant Inv keeps signals car parts started in_time inv =
      let (car', ran, inv') =
        frames-Invariant Inv keeps signals 0 (record car { m_parts = parts; m_running = true })
          in_time inv refl in
      let count : 0 + frames_run signals ≡ frames_run signals = omega arith in
      (car', rw (started, ran) refl, rw count at inv')
