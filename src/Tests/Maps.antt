-- ===== src/Tests/Maps.antt =====
-- include/locked-map.hpp: two threads that use one map.
use Prim.Native.String.{String}
use donkeycar_gt.Prelude.{ℕ, ◌≡◌, refl, true, false, List, [], ◌∷◌}
use donkeycar_gt.Memory.{string_key}
use donkeycar_gt.Monitor.{turns, turn, new_shared}
use donkeycar_gt.Monitor.Linear.{Logged, holding}
use donkeycar_gt.TaskStatus.{init_status, request_exit, wait_to_run, set_exit_flag_blocking}
use donkeycar_gt.TaskStatus.Threads.{
  Method, running_wait, exiting, section, after_section, locks, calls,
}
use donkeycar_gt.TaskStatus.Threads.Exit.{told, AllTold, exit_is_final}
use donkeycar_gt.LockedMap.Threads.{Op, insert, at, size}
use donkeycar_gt.LockedMap.Threads as map

-- Both threads put a value at one key, and the second then asks for it.
abbrev schedule : List (ℕ × Op String ℕ)
schedule =
    (0, insert "image" 3)
    ∷ (1, insert "image" 4)
    ∷ (0, size)
    ∷ (1, size)
    ∷ (0, size)
    ∷ (0, size)
    ∷ (1, size)
    ∷ (0, size)
    ∷ (1, size)
    ∷ (1, size)
    ∷ (1, size)
    ∷ (1, size)
    ∷ (1, at "image")
    ∷ (1, size)
    ∷ (1, size)
    ∷ (1, size)
    ∷ []

-- Thread 1 is the managed one and sleeps; thread 0 tells it to exit, and it looks again.
abbrev told_schedule : List (ℕ × Method)
told_schedule =
    (1, running_wait)
    ∷ (1, running_wait)
    ∷ (1, running_wait)
    ∷ (1, running_wait)
    ∷ (1, running_wait)
    ∷ (0, exiting)
    ∷ (0, exiting)
    ∷ (1, running_wait)
    ∷ (0, exiting)
    ∷ (0, exiting)
    ∷ (0, exiting)
    ∷ (1, running_wait)
    ∷ (1, running_wait)
    ∷ (1, running_wait)
    ∷ []

exit_is_final_example :
    let s =
      turns locks
        (section true)
        after_section
        (calls told_schedule)
        (new_shared (init_status false)) in
    (told s.log ≡ true → s.state ≡ request_exit)
    × AllTold s.log
    × ((t : ℕ) → Logged after_section s.log (s.places t))
    × ((t u : ℕ) → holding (s.places t) ≡ true → holding (s.places u) ≡ true → t ≡ u)
exit_is_final_example = exit_is_final false told_schedule

told_by_then :
    let s =
      turns locks
        (section true)
        after_section
        (calls told_schedule)
        (new_shared (init_status false)) in
    told s.log ≡ true
unfolding turns turn section wait_to_run set_exit_flag_blocking init_status new_shared
told_by_then = refl
