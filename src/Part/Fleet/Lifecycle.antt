-- ===== src/Part/Fleet/Lifecycle.antt =====
-- src/vehicle.cpp: the vehicle starts parts with threads, and parts without, and shuts them down.
use donkeycar_gt.Prelude.{
  ℕ, ◌*◌, ◌≤◌, ◌≡◌, refl, ◌∙◌, ap, Bool, true, false, List, [], ◌∷◌, length, arith,
}
use donkeycar_gt.Prelude.Relations.{All}
use donkeycar_gt.TaskStatus.{running}
use donkeycar_gt.ManagedThread.Worker.{absent, new_thread}
use donkeycar_gt.ManagedThread.System.{init}
use donkeycar_gt.Part.{Session, new_part, shutdown_calls}
use donkeycar_gt.Part.Start.{
  IsStarting, asked, start-IsProgress, new_part-IsStarting, new_part-left, start_done,
}
use donkeycar_gt.Part.Start as start
use donkeycar_gt.Part.Shutdown.{IsStopping, joins, shutdown-IsProgress, left-le, shutdown_done}
use donkeycar_gt.Part.Shutdown as shutdown
use donkeycar_gt.Part.Lifecycle.{started-IsStopping}
use donkeycar_gt.Part.Fleet.{
  Member, at_rest, fleet_rounds, start_all, stop_all, destroy_all, flags_of,
}
use donkeycar_gt.Part.Fleet.Destruction.{IsDone, IsEnded, destroy_rounds-IsEnded}
use donkeycar_gt.Part.Fleet.Progress.{Fits, fleet_left, fleet_rounds-Fits}

-- A part with a thread has one that runs, and one without has none.
abbrev pub IsStarted : Member → Type 0
IsStarted (true, s) =
    IsDone s
    × (s.system.status ≡ running)
    × (s.system.joinable ≡ true)
    × (s.system.should_exit ≡ false)
IsStarted (false, s) = IsDone s × (s.system.joinable ≡ false) × (s.system.worker ≡ absent)

start-rested : (s : Session) → at_rest s ≡ true → start.left s ≤ 0
start-rested s h = ground arith

start-rests : (s : Session) → IsStarting s → start.left s ≤ 0 → at_rest s ≡ true
start-rests s h done = ground arith

shutdown-rested : (s : Session) → at_rest s ≡ true → shutdown.left s ≤ 0
shutdown-rested s h = ground arith

shutdown-rests : (s : Session) → IsStopping s → shutdown.left s ≤ 0 → at_rest s ≡ true
shutdown-rests s h done = ground arith

start_all-Fits :
    (flags : List Bool)
    → All (Fits IsStarting) (start_all flags)
      × (fleet_left start.left (start_all flags) ≤ 79 * length flags)
      × (flags_of (start_all flags) ≡ flags)
unfolding start_all
start_all-Fits [] = (tt, omega arith, refl)
start_all-Fits (true ∷ flags) =
    let (rest, less, same) = start_all-Fits flags in
    ((new_part-IsStarting, rest), omega (arith, new_part-left), ap (λ fs. true ∷ fs) same)
start_all-Fits (false ∷ flags) =
    let (rest, less, same) = start_all-Fits flags in
    ((refl, rest), omega arith, ap (λ fs. false ∷ fs) same)

Fits-All-IsStarted :
    (ps : List Member) → All (Fits IsStarting) ps → fleet_left start.left ps ≤ 0 → All IsStarted ps
unfolding new_part init new_thread
Fits-All-IsStarted [] h done = tt
Fits-All-IsStarted ((true, s) ∷ ps) (here, rest) done =
    let (at_rest', all, runs, alive) = start_done s here (omega arith) in
    (((at_rest', all), runs, alive, here.flag), Fits-All-IsStarted ps rest (omega arith))
Fits-All-IsStarted ((false, s) ∷ ps) (here, rest) done =
    (rw here ((refl, refl), refl, refl), Fits-All-IsStarted ps rest (omega arith))

stop_all-Fits :
    (ps : List Member)
    → All (Fits IsStarting) ps
    → All IsStarted ps
    → All (Fits IsStopping) (stop_all ps)
      × (fleet_left shutdown.left (stop_all ps) ≤ 87 * length (flags_of ps))
      × (flags_of (stop_all ps) ≡ flags_of ps)
unfolding stop_all new_part
stop_all-Fits [] h g = (tt, omega arith, refl)
stop_all-Fits ((true, s) ∷ ps) (here, rest) (((at_rest', all), runs, alive, flag), rest') =
    let (stops, less, same) = stop_all-Fits ps rest rest' in
    let t = record s { calls = shutdown_calls true } in
    (
      (started-IsStopping s here at_rest' all runs, stops),
      omega (arith, left-le t at_rest'),
      ap (λ fs. true ∷ fs) same,
    )
stop_all-Fits ((false, s) ∷ ps) (here, rest) (_, rest') =
    let (stops, less, same) = stop_all-Fits ps rest rest' in
    (
      (ap (λ (s : Session). record s { calls = [] }) here, stops),
      omega arith,
      ap (λ fs. false ∷ fs) same,
    )

Fits-All-IsEnded :
    (ps : List Member) → All (Fits IsStopping) ps → fleet_left shutdown.left ps ≤ 0 → All IsEnded ps
unfolding new_part init new_thread
Fits-All-IsEnded [] h done = tt
Fits-All-IsEnded ((true, s) ∷ ps) (here, rest) done =
    let (at_rest', all, gone, over) = shutdown_done s here (omega arith) in
    (((at_rest', all), gone, over), Fits-All-IsEnded ps rest (omega arith))
Fits-All-IsEnded ((false, s) ∷ ps) (here, rest) done =
    (rw here ((refl, refl), refl, refl), Fits-All-IsEnded ps rest (omega arith))

-- A vehicle with any number of parts, each with a thread or without, in any fair execution: the loop of
-- `start_blocking` comes to its end within 79 rounds for each part, and then each part with a thread has one
-- that runs and was not told to exit, and the others have none. However long they have run, the
-- loop of `stop` then comes to its end within 87 rounds for each part, and no part has a thread. When the parts
-- are then destroyed, one after the other, all destructors have returned within 9 rounds for each part, and
-- there is no thread. In each round every thread takes a turn or more, and the owner of the parts one.
pub fleet_lifecycle :
    (debug : Bool) (flags : List Bool) (working stopping ending : List (ℕ → ℕ))
    → 79 * length flags ≤ length working
    → 87 * length flags ≤ length stopping
    → 9 * length flags ≤ length ending
    → let ps = fleet_rounds debug working (start_all flags) in
      let qs = fleet_rounds debug stopping (stop_all ps) in
      (flags_of ps ≡ flags)
      × All IsStarted ps
      × (flags_of qs ≡ flags)
      × All IsEnded qs
      × All IsEnded (fleet_rounds debug ending (destroy_all qs))
fleet_lifecycle debug flags working stopping ending enough enough' enough'' =
    let ps = fleet_rounds debug working (start_all flags) in
    let (starts, most, same) = start_all-Fits flags in
    let (starts', less, same') =
      fleet_rounds-Fits debug IsStarting start.left asked (start-IsProgress debug) start-rested
        start-rests working (start_all flags) starts in
    let started = Fits-All-IsStarted ps starts' (omega arith) in
    let kept : flags_of ps ≡ flags = same' ∙ same in
    let (stops, most', held) = stop_all-Fits ps starts' started in
    let count = ap (λ (fs : List Bool). 87 * length fs) kept in
    let (stops', less', held') =
      fleet_rounds-Fits debug IsStopping shutdown.left joins (shutdown-IsProgress debug)
        shutdown-rested shutdown-rests stopping (stop_all ps) stops in
    let ended = Fits-All-IsEnded _ stops' (omega arith) in
    let all_kept = held' ∙ held ∙ kept in
    let count' = ap (λ (fs : List Bool). 9 * length fs) all_kept in
    (
      kept,
      started,
      all_kept,
      ended,
      destroy_rounds-IsEnded debug ending _ stops' ended (omega arith),
    )
