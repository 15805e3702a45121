-- ===== src/Tests/Lifecycle.antt =====
-- include/parts/part.hpp and src/managed-thread.cpp: a part from start to end, and what follows the exit.
use donkeycar_gt.Prelude.{
  ◌≤◌, ◌≡◌, refl, ◌≢◌, Bool, true, false, List, [], ◌∷◌, ◌++◌, replicate, arith,
}
use donkeycar_gt.TaskStatus.{request_exit, init_status}
use donkeycar_gt.ManagedThread.Worker.{worker_step, new_thread}
use donkeycar_gt.ManagedThread.Caller.{
  Call, blocked, start, suspend, graceful_exit, join, caller_step,
}
use donkeycar_gt.ManagedThread.System.{Turn, of_worker, of_caller, step, run, init, updates}
use donkeycar_gt.ManagedThread.Quiet.{in_round}
use donkeycar_gt.ManagedThread.Protocol.{Moves, run-Moves}
use donkeycar_gt.ManagedThread.Restart.{restart_never_updates}
use donkeycar_gt.ManagedThread.Unasserted.{handshake_after_exit_hangs}
use donkeycar_gt.Prelude.Relations.{All}
use donkeycar_gt.Part.Fleet.{fleet_rounds, start_all, stop_all, destroy_all, flags_of}
use donkeycar_gt.Part.Fleet.Lifecycle.{IsStarted, fleet_lifecycle}
use donkeycar_gt.Part.Fleet.Destruction.{IsEnded}

abbrev w : Turn
w = of_worker false

abbrev c : Call → Turn
c next = of_caller 0 next

-- `start()`, `graceful_exit()`, and `join()`, each from its call to its return.
abbrev started : List Turn
started = c start ∷ c start ∷ c start ∷ c start ∷ []

abbrev told : List Turn
told = c graceful_exit ∷ c graceful_exit ∷ c graceful_exit ∷ c graceful_exit ∷ c graceful_exit ∷ []

abbrev joined : List Turn
joined = w ∷ c join ∷ c join ∷ c join ∷ c join ∷ c join ∷ []

run-Moves_example :
    Moves (started ++ told) (init false).status (run true (started ++ told) (init false)).status
run-Moves_example = run-Moves (started ++ told) (init false)

exited : (run true (started ++ told ++ joined) (init false)).status ≡ request_exit
unfolding run step init new_thread init_status worker_step caller_step
exited = refl

-- It is started once more, and the thread takes some turns.
restart_never_updates_example :
    let s = run true (started ++ told ++ joined) (init false) in
    let again = started ++ w ∷ w ∷ w ∷ w ∷ w ∷ w ∷ [] in
    ((run true again s).status ≡ request_exit)
    × (updates true again s ≤ 1)
    × (in_round s.worker ≡ false → updates true again s ≡ 0)
restart_never_updates_example =
    restart_never_updates (started ++ w ∷ w ∷ w ∷ w ∷ w ∷ w ∷ [])
      (run true (started ++ told ++ joined) (init false)) exited

abbrev then_suspend : List Turn
then_suspend = started ++ told ++ joined ++ c suspend ∷ c suspend ∷ []

handshake_after_exit_hangs_example :
    let t = run false (c join ∷ w ∷ c join ∷ []) (run false then_suspend (init false)) in
    (t.callers 0 ≡ blocked suspend) × (t.status ≢ request_exit)
unfolding run step init new_thread init_status worker_step caller_step
handshake_after_exit_hangs_example =
    handshake_after_exit_hangs false then_suspend (w ∷ c join ∷ []) 0 join suspend refl refl refl
      refl

-- A part without a thread between two with one.
abbrev flags : List Bool
flags = true ∷ false ∷ true ∷ []

fleet_lifecycle_example :
    let ps = fleet_rounds true (replicate 240 (λ i. i)) (start_all flags) in
    let qs = fleet_rounds true (replicate 270 (λ i. 0)) (stop_all ps) in
    (flags_of ps ≡ flags)
    × All IsStarted ps
    × (flags_of qs ≡ flags)
    × All IsEnded qs
    × All IsEnded (fleet_rounds true (replicate 27 (λ i. 1)) (destroy_all qs))
fleet_lifecycle_example =
    fleet_lifecycle true flags (replicate 240 (λ i. i)) (replicate 270 (λ i. 0))
      (replicate 27 (λ i. 1)) (omega arith) (omega arith) (omega arith)
