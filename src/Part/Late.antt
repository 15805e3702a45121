-- ===== src/Part/Late.antt =====
-- src/vehicle.cpp, `start_blocking`, with a signal while it starts the parts: the handler shuts every part
-- down, also one that has no thread yet, and then the loop starts that part (include/parts/part.hpp).
use donkeycar_gt.Prelude.{
  ℕ, ◌+◌, ◌-◌, ◌*◌, ◌≤◌, ◌≡◌, refl, ◌≢◌, Bool, true, false, not, ◌&&◌, none, some, List, [], ◌∷◌,
  ◌++◌, length, if◌then◌else◌, arith,
}
use donkeycar_gt.TaskStatus.{MtsState, running, request_run, request_exit, init_status}
use donkeycar_gt.ManagedThread.Worker.{WorkerPc, caller, asleep, finished, worker_step, new_thread}
use donkeycar_gt.ManagedThread.Caller.{
  Call, CallerPc, idle, set_flag, locking, inside, blocked, leaving, aborted, start, resume,
  graceful_exit, join, caller_step,
}
use donkeycar_gt.ManagedThread.System.{step, init}
use donkeycar_gt.ManagedThread.Ownership.{holding, is_absent}
use donkeycar_gt.ManagedThread.Exit.{exiting_itself}
use donkeycar_gt.ManagedThread.Handshake.{may_sleep, until_wait}
use donkeycar_gt.Prelude.Rounds.{IsProgress, rounds-left}
use donkeycar_gt.Part.Start.{is_request_run, is_running?, is_paused?, thread_turn-is_request_run}
use donkeycar_gt.Part.Shutdown.{is_exit?}
use donkeycar_gt.Part.{
  Session, start_calls, shutdown_calls, new_part, owner_turn, thread_turn, rounds,
}

-- The turns that the owner has before it.
abbrev stage : CallerPc → List Call → ℕ
stage idle (graceful_exit ∷ cs) = 18
stage set_flag cs = 17
stage (locking graceful_exit) cs = 16
stage (inside graceful_exit) cs = 15
stage leaving (join ∷ cs) = 14
stage idle (join ∷ cs) = 13
stage (locking join) cs = 12
stage (inside join) cs = 11
stage leaving (start ∷ cs) = 10
stage idle (start ∷ cs) = 9
stage (locking start) cs = 8
stage (inside start) cs = 7
stage leaving (resume ∷ cs) = 6
stage idle (resume ∷ cs) = 5
stage (locking resume) cs = 4
stage (inside resume) cs = 3
stage (blocked resume) cs = 2
stage leaving [] = 1
stage pc cs = 0

-- Where the owner may be, with what calls to come, whether there is a thread and it was told to exit, and
-- the status.
abbrev fits_late : Bool → CallerPc → List Call → (alive told : Bool) → MtsState → Bool
fits_late debug idle (graceful_exit ∷ join ∷ start ∷ resume ∷ []) alive told st =
    not alive && not told && is_paused? st
fits_late debug set_flag (join ∷ start ∷ resume ∷ []) alive told st =
    not alive && not told && is_paused? st
fits_late debug (locking graceful_exit) (join ∷ start ∷ resume ∷ []) alive told st =
    not alive && told && is_paused? st
fits_late debug (inside graceful_exit) (join ∷ start ∷ resume ∷ []) alive told st =
    not alive && told && is_paused? st
fits_late debug leaving (join ∷ start ∷ resume ∷ []) alive told st =
    not alive && told && is_exit? st
fits_late debug idle (join ∷ start ∷ resume ∷ []) alive told st = not alive && told && is_exit? st
fits_late debug (locking join) (start ∷ resume ∷ []) alive told st =
    not alive && told && is_exit? st
fits_late debug (inside join) (start ∷ resume ∷ []) alive told st = not alive && told && is_exit? st
fits_late debug leaving (start ∷ resume ∷ []) alive told st = not alive && told && is_exit? st
fits_late debug idle (start ∷ resume ∷ []) alive told st = not alive && told && is_exit? st
fits_late debug (locking start) (resume ∷ []) alive told st = not alive && told && is_exit? st
fits_late debug (inside start) (resume ∷ []) alive told st = not alive && told && is_exit? st
fits_late debug leaving (resume ∷ []) alive told st = alive && not told && is_exit? st
fits_late debug idle (resume ∷ []) alive told st = alive && not told && is_exit? st
fits_late debug (locking resume) [] alive told st = alive && not told && is_exit? st
fits_late debug (inside resume) [] alive told st = alive && not told && is_exit? st
fits_late debug aborted [] alive told st = debug && alive && not told && is_exit? st
fits_late debug (blocked resume) [] alive told request_run = not debug && alive && not told
fits_late debug (blocked resume) [] alive told running = not debug && alive && not told
fits_late debug leaving [] alive told st = not debug && alive && not told && is_running? st
fits_late debug idle [] alive told st = not debug && alive && not told && is_running? st
fits_late debug pc cs alive told st = false

pub record IsLate (debug : Bool) (s : Session) : Type 0 where
  pub alone : s.system.owner ≡ (if holding (s.system.callers 0) then some (caller 0) else none)
  pub plain : exiting_itself s.system.worker ≡ false
  pub thread : is_absent s.system.worker ≡ not s.system.joinable
  pub unfinished : s.system.worker ≢ finished
  pub sleeps : s.system.worker ≡ asleep → may_sleep s.system.status ≡ true
  pub place :
      fits_late debug
        (s.system.callers 0)
        s.calls
        s.system.joinable
        s.system.should_exit
        s.system.status
      ≡ true

-- A measure of what is left.
abbrev wait_left : CallerPc → List Call → MtsState → WorkerPc → ℕ
wait_left idle [] st pc = 0
wait_left aborted cs st pc = 0
wait_left (blocked resume) cs request_run pc = until_wait pc
wait_left (blocked resume) cs st pc = 0
wait_left _ _ _ _ = 7

abbrev pub left : Session → ℕ
left s =
    8 * stage (s.system.callers 0) s.calls
    + wait_left (s.system.callers 0) s.calls s.system.status s.system.worker

pub left-le : (s : Session) → left s ≤ 151
left-le s = ground arith

thread_turn-IsLate :
    (debug : Bool) (s : Session) → IsLate debug s → IsLate debug (thread_turn debug s)
unfolding thread_turn step worker_step
thread_turn-IsLate debug s h = record {
  alone = ground arith;
  plain = ground arith;
  thread = ground arith;
  unfinished = ground arith;
  sleeps = ground arith;
  place = ground arith;
}

owner_turn-IsLate :
    (debug : Bool) (s : Session) → IsLate debug s → IsLate debug (owner_turn debug s)
unfolding owner_turn step caller_step
owner_turn-IsLate debug s h = record {
  alone = ground arith;
  plain = ground arith;
  thread = ground arith;
  unfinished = ground arith;
  sleeps = ground arith;
  place = ground arith;
}

thread_turn-left :
    (debug : Bool) (s : Session)
    → IsLate debug s
    → left (thread_turn debug s) ≤ left s - (if is_request_run s.system.status then 1 else 0)
unfolding thread_turn step worker_step
thread_turn-left debug s h = ground arith

owner_turn-left :
    (debug : Bool) (s : Session)
    → IsLate debug s
    → left (owner_turn debug s) ≤ left s - (if is_request_run s.system.status then 0 else 1)
unfolding owner_turn step caller_step
owner_turn-left debug s h = ground arith

pub asked : Session → Bool
asked s = is_request_run s.system.status

pub IsLate-IsProgress :
    (debug : Bool) → IsProgress (thread_turn debug) (owner_turn debug) (IsLate debug) left asked
unfolding asked
IsLate-IsProgress debug = record {
  thread_keeps = thread_turn-IsLate debug;
  owner_keeps = owner_turn-IsLate debug;
  thread_left = thread_turn-left debug;
  owner_left = owner_turn-left debug;
  goes_on = λ s h. thread_turn-is_request_run debug s;
}

-- What `stop` and then the rest of the loop call of a part that has not been started.
abbrev pub late_calls : List Call
late_calls = shutdown_calls true ++ start_calls true

new_part-IsLate : (debug : Bool) → IsLate debug (new_part late_calls)
unfolding new_part init new_thread init_status
new_part-IsLate debug = record {
  alone = refl;
  plain = refl;
  thread = refl;
  unfinished = λ e. cc;
  sleeps = λ e. cc;
  place = refl;
}

new_part-left : left (new_part late_calls) ≤ 151
unfolding new_part init new_thread init_status
new_part-left = omega arith

pub late_done :
    (debug : Bool) (s : Session)
    → IsLate debug s
    → left s ≤ 0
    → (s.system.callers 0 ≡ (if debug then aborted else idle))
      × (s.system.status ≡ (if debug then request_exit else running))
      × (s.system.joinable ≡ true)
      × (s.system.should_exit ≡ false)
      × (s.calls ≡ [])
late_done true s h done = (ground arith, ground arith, ground arith, ground arith, ground arith)
late_done false s h done = (ground arith, ground arith, ground arith, ground arith, ground arith)

-- A part with a thread that is shut down before it is started and then started, in any fair execution: after
-- 151 rounds it has a thread, although `shutdown` was called, and that thread was not told to exit. In a
-- build with assertions `start` has then failed one and ended the program; in one without it has
-- returned, and the thread runs, with no call left that would end it.
pub late_start_stays :
    (debug : Bool) (ks : List ℕ)
    → 151 ≤ length ks
    → let s = rounds debug ks (new_part late_calls) in
      (s.system.callers 0 ≡ (if debug then aborted else idle))
      × (s.system.status ≡ (if debug then request_exit else running))
      × (s.system.joinable ≡ true)
      × (s.system.should_exit ≡ false)
      × (s.calls ≡ [])
late_start_stays debug ks enough =
    let (h, less) =
      rounds-left (IsLate-IsProgress debug) ks (new_part late_calls) (new_part-IsLate debug) in
    late_done debug _ h (omega (arith, less, new_part-left))
