-- ===== src/Part/Fleet/Progress.antt =====
-- src/vehicle.cpp: a measure of the calls that the vehicle has still to make for its parts falls in each round.
use donkeycar_gt.Prelude.{
  ℕ, zero, suc, ◌+◌, ◌-◌, ◌≤◌, ◌≡◌, refl, Bool, true, false, List, [], ◌∷◌, length, inl, inr,
  Bool-cases, if◌then◌else◌, arith, ap, ◌∙◌,
}
use donkeycar_gt.Prelude.Relations.{All}
use donkeycar_gt.ManagedThread.Worker.{worker_step, new_thread}
use donkeycar_gt.ManagedThread.System.{step, init}
use donkeycar_gt.Part.{Session, new_part, owner_turn, thread_turn, thread_turns}
use donkeycar_gt.Prelude.Rounds.{turns, IsProgress, turns-left, round-left}
use donkeycar_gt.Part.Fleet.{Member, at_rest, fleet_turn, threads_turn, fleet_rounds, flags_of}

still-new : (debug : Bool) (k : ℕ) → thread_turns debug k (new_part []) ≡ new_part []
unfolding turns thread_turn new_part step init worker_step new_thread
still-new debug zero = refl
still-new debug (suc k) = still-new debug k

-- A part with a thread is where `Inv` says; one without is as it was made.
abbrev pub Fits : (Session → Type 0) → Member → Type 0
Fits Inv (true, s) = Inv s
Fits Inv (false, s) = s ≡ new_part []

-- What is left of the calls for all parts.
abbrev pub fleet_left : (Session → ℕ) → List Member → ℕ
fleet_left left [] = 0
fleet_left left ((threaded, s) ∷ ps) = (if threaded then left s else 0) + fleet_left left ps

module _ (debug : Bool) (Inv : Session → Type 0) (left : Session → ℕ) (waits : Session → Bool)
    (p : IsProgress (thread_turn debug) (owner_turn debug) Inv left waits)
    (rested : (s : Session) → at_rest s ≡ true → left s ≤ 0)
    (rests : (s : Session) → Inv s → left s ≤ 0 → at_rest s ≡ true) where
  threads_turn-Fits :
      (ks : ℕ → ℕ) (ps : List Member)
      → All (Fits Inv) ps
      → All (Fits Inv) (threads_turn debug ks ps)
        × (fleet_left left (threads_turn debug ks ps) ≤ fleet_left left ps)
        × (flags_of (threads_turn debug ks ps) ≡ flags_of ps)
  unfolding threads_turn
  threads_turn-Fits ks [] h = (tt, omega arith, refl)
  threads_turn-Fits ks ((true, s) ∷ ps) (here, rest) =
      let (here', less) = turns-left p (suc (ks zero)) s here in
      let (rest', less', same) = threads_turn-Fits (λ i. ks (suc i)) ps rest in
      ((here', rest'), omega arith, ap (λ fs. true ∷ fs) same)
  threads_turn-Fits ks ((false, s) ∷ ps) (here, rest) =
      let (rest', less', same) = threads_turn-Fits (λ i. ks (suc i)) ps rest in
      ((rw here (still-new debug (suc (ks zero))), rest'), omega arith, ap (λ fs. false ∷ fs) same)

  -- In each round the first part that is not at rest gets on.
  round-Fits :
      (ks : ℕ → ℕ) (ps : List Member)
      → All (Fits Inv) ps
      → let qs = fleet_turn debug (threads_turn debug ks ps) in
        All (Fits Inv) qs
        × (fleet_left left qs ≤ fleet_left left ps - 1)
        × (flags_of qs ≡ flags_of ps)
  unfolding threads_turn fleet_turn new_part init
  round-Fits ks [] h = (tt, omega arith, refl)
  round-Fits ks ((true, s) ∷ ps) (here, rest) =
      let t = thread_turns debug (suc (ks zero)) s in
      let (here', less) = turns-left p (suc (ks zero)) s here in
      elim (Bool-cases (at_rest t)) [
        | inl done ↦
            let (rest', less', same) = round-Fits (λ i. ks (suc i)) ps rest in
            let none_left = rested t done in
            rw done ((here', rest'), omega arith, ap (λ fs. true ∷ fs) same)
        | inr due ↦
            let (rest', less', same) = threads_turn-Fits (λ i. ks (suc i)) ps rest in
            let on = round-left p (ks zero) s here in
            let some_left : 1 ≤ left t = grind (arith, rests t here') in
            rw due ((p.owner_keeps t here', rest'), omega arith, ap (λ fs. true ∷ fs) same)
      ]
  round-Fits ks ((false, s) ∷ ps) (here, rest) =
      let (rest', less', same) = round-Fits (λ i. ks (suc i)) ps rest in
      let still : thread_turns debug (suc (ks zero)) s ≡ new_part [] =
        rw here (still-new debug (suc (ks zero))) in
      rw still ((refl, rest'), omega arith, ap (λ fs. false ∷ fs) same)

  pub fleet_rounds-Fits :
      (rounds : List (ℕ → ℕ)) (ps : List Member)
      → All (Fits Inv) ps
      → let qs = fleet_rounds debug rounds ps in
        All (Fits Inv) qs
        × (fleet_left left qs ≤ fleet_left left ps - length rounds)
        × (flags_of qs ≡ flags_of ps)
  unfolding fleet_rounds
  fleet_rounds-Fits [] ps h = (h, omega arith, refl)
  fleet_rounds-Fits (ks ∷ rounds) ps h =
      let (h', less, same) = round-Fits ks ps h in
      let (h'', less', same') = fleet_rounds-Fits rounds _ h' in (h'', omega arith, same' ∙ same)
