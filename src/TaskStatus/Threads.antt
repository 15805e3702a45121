-- ===== src/TaskStatus/Threads.antt =====
-- src/managed-task-status.cpp: one status and any number of threads that call its methods, in any order of
-- their steps. A section of a method is an entry of the monitor that `m_mutex` guards; the waits of
-- `m_event` let the mutex go and take it again.
pub mod Exit
use donkeycar_gt.Prelude.{ℕ, ◌≡◌, Bool, true, List, [], ◌∷◌}
use donkeycar_gt.Run.{Run, ok, fault}
use donkeycar_gt.Monitor.{After, returns, waits, stops, turns, new_shared}
use donkeycar_gt.Monitor.Linear.{Explains, Logged, holding, turns_linearize}
use donkeycar_gt.TaskStatus.{
  MtsState, Progress, returned, waiting, init_status, pause_task_blocking, pause_loop,
  resume_task_blocking, resume_loop, wait_to_run, wait_wake, set_exit_flag_blocking, request_pause?,
  is_running, is_paused,
}

pub data Method : Type 0 where
  pausing resuming running_wait exiting asking_pause asking_running asking_paused : Method

-- The section from the call on, or the one after a wake-up.
pub data Section : Type 0 where
  called : Method → Section
  woken : Method → Section

-- How a section ends.
pub data Outcome : Type 0 where
  done : Outcome
  answered : Bool → Outcome
  waits_in : Method → Outcome
  failed : Outcome

abbrev ends : Method → Progress (Unit {0}) → Outcome
ends method (returned _) = done
ends method waiting = waits_in method

abbrev ends_run : MtsState × Progress Bool → MtsState × Outcome
ends_run (s, returned b) = (s, answered b)
ends_run (s, waiting) = (s, waits_in running_wait)

-- After an assertion that failed the state is what it was.
abbrev ends_call : Method → MtsState → Run (MtsState × Progress (Unit {0})) → MtsState × Outcome
ends_call method before (ok (s, p)) = (s, ends method p)
ends_call method before (fault e) = (before, failed)

unfoldable pub section : Bool → Section → MtsState → MtsState × Outcome
unfolding pause_task_blocking resume_task_blocking wait_to_run wait_wake set_exit_flag_blocking
section debug (called pausing) s = ends_call pausing s (pause_task_blocking debug s)
section debug (woken pausing) s = (s, ends pausing (pause_loop s))
section debug (called resuming) s = ends_call resuming s (resume_task_blocking debug s)
section debug (woken resuming) s = (s, ends resuming (resume_loop s))
section debug (called running_wait) s = ends_run (wait_to_run s)
section debug (woken running_wait) s = ends_run (wait_wake s)
section debug (called exiting) s = (set_exit_flag_blocking s, done)
section debug (called asking_pause) s = (s, answered (request_pause? s))
section debug (called asking_running) s = (s, answered (is_running s))
section debug (called asking_paused) s = (s, answered (is_paused s))
-- The other methods have no wait.
section debug (woken method) s = (s, done)

abbrev pub after_section : Outcome → After Section
after_section done = returns
after_section (answered b) = returns
after_section (waits_in method) = waits (woken method)
after_section failed = stops

-- Each method begins with `Lock lock(m_mutex)`.
abbrev pub locks_first : Method → Bool
locks_first pausing = true
locks_first resuming = true
locks_first running_wait = true
locks_first exiting = true
locks_first asking_pause = true
locks_first asking_running = true
locks_first asking_paused = true

-- A section after a wake-up begins with the mutex that the wait took.
abbrev pub locks : Section → Bool
locks (called method) = locks_first method
locks (woken method) = true

-- Threads call methods; a section after a wake-up is reached from a wait only.
abbrev pub calls : List (ℕ × Method) → List (ℕ × Section)
calls [] = []
calls ((t, method) ∷ schedule) = (t, called method) ∷ calls schedule
