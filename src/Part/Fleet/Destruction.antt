-- ===== src/Part/Fleet/Destruction.antt =====
-- src/vehicle.cpp, `~Vehicle`: the parts that only it holds are destroyed, one after the other.
use donkeycar_gt.Prelude.{
  ℕ, ◌*◌, ◌≤◌, ◌≡◌, refl, ap, Bool, true, false, List, [], ◌∷◌, length, arith,
}
use donkeycar_gt.Prelude.Relations.{All}
use donkeycar_gt.ManagedThread.Worker.{absent, new_thread}
use donkeycar_gt.ManagedThread.Caller.{idle}
use donkeycar_gt.ManagedThread.System.{init}
use donkeycar_gt.Part.{Session, new_part}
use donkeycar_gt.Part.Shutdown.{IsStopping}
use donkeycar_gt.Part.Destroy.{
  IsGoing, left, never, IsGoing-IsProgress, destroy_rested, destroy_rests,
}
use donkeycar_gt.Part.Fleet.{Member, at_rest, fleet_rounds, flags_of, destroy_all}
use donkeycar_gt.Part.Fleet.Progress.{Fits, fleet_left, fleet_rounds-Fits}

-- The vehicle waits for no call of the part.
abbrev pub IsDone : Session → Type 0
IsDone s = (s.system.callers 0 ≡ idle) × (s.calls ≡ [])

abbrev pub IsEnded : Member → Type 0
IsEnded (threaded, s) = IsDone s × (s.system.joinable ≡ false) × (s.system.worker ≡ absent)

at_rest-IsDone : (s : Session) → at_rest s ≡ true → IsDone s
at_rest-IsDone s h = (ground arith, ground arith)

destroy_all-Fits :
    (ps : List Member)
    → All (Fits IsStopping) ps
    → All IsEnded ps
    → All (Fits IsGoing) (destroy_all ps)
      × (fleet_left left (destroy_all ps) ≤ 9 * length (flags_of ps))
unfolding destroy_all new_part init new_thread
destroy_all-Fits [] h ended = (tt, omega arith)
destroy_all-Fits ((true, s) ∷ ps) (here, rest) (((at_rest, all), gone, over), rest') =
    let (going, less) = destroy_all-Fits ps rest rest' in
    (
      (
        record { alone = here.alone; thread = over; unjoinable = gone; place = rw at_rest refl },
        going,
      ),
      rw at_rest (omega (arith, less)),
    )
destroy_all-Fits ((false, s) ∷ ps) (here, rest) (((at_rest, all), gone, over), rest') =
    let (going, less) = destroy_all-Fits ps rest rest' in
    let none_holds = ap (λ (s : Session). s.system.owner) here in
    (
      (
        record {
          alone = rw at_rest none_holds;
          thread = over;
          unjoinable = gone;
          place = rw at_rest refl;
        },
        going,
      ),
      rw at_rest (omega (arith, less)),
    )

Fits-All-IsDestroyed :
    (ps : List Member) → All (Fits IsGoing) ps → fleet_left left ps ≤ 0 → All IsEnded ps
unfolding new_part init new_thread
Fits-All-IsDestroyed [] h done = tt
Fits-All-IsDestroyed ((true, s) ∷ ps) (here, rest) done = (
  (at_rest-IsDone s (destroy_rests s here (omega arith)), here.unjoinable, here.thread),
  Fits-All-IsDestroyed ps rest (omega arith),
)
Fits-All-IsDestroyed ((false, s) ∷ ps) (here, rest) done =
    (rw here ((refl, refl), refl, refl), Fits-All-IsDestroyed ps rest (omega arith))

-- The destructors of parts that were shut down return, and make no thread.
pub destroy_rounds-IsEnded :
    (debug : Bool) (last : List (ℕ → ℕ)) (ps : List Member)
    → All (Fits IsStopping) ps
    → All IsEnded ps
    → 9 * length (flags_of ps) ≤ length last
    → All IsEnded (fleet_rounds debug last (destroy_all ps))
destroy_rounds-IsEnded debug last ps stopped ended enough =
    let (going, most) = destroy_all-Fits ps stopped ended in
    let (going', less, _) =
      fleet_rounds-Fits debug IsGoing left never (IsGoing-IsProgress debug) destroy_rested
        destroy_rests last (destroy_all ps) going in
    Fits-All-IsDestroyed _ going' (omega arith)
