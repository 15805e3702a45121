-- ===== src/Part/Start.antt =====
-- include/parts/part.hpp, `start`: it returns, and leaves a thread that runs.
use donkeycar_gt.Prelude.{
  ℕ, ◌+◌, ◌-◌, ◌*◌, ◌≤◌, ◌≡◌, refl, ◌≢◌, Bool, true, false, not, ◌&&◌, none, some, List, [], ◌∷◌,
  length, if◌then◌else◌, arith,
}
use donkeycar_gt.TaskStatus.{MtsState, running, paused, request_run, init_status}
use donkeycar_gt.ManagedThread.Worker.{WorkerPc, caller, asleep, finished, worker_step, new_thread}
use donkeycar_gt.ManagedThread.Caller.{
  Call, CallerPc, idle, locking, inside, blocked, leaving, start, resume, caller_step,
}
use donkeycar_gt.ManagedThread.System.{step, init}
use donkeycar_gt.ManagedThread.Ownership.{holding, is_absent}
use donkeycar_gt.ManagedThread.Exit.{exiting_itself}
use donkeycar_gt.ManagedThread.Handshake.{may_sleep, until_wait}
use donkeycar_gt.Prelude.Rounds.{IsProgress, rounds-left}
use donkeycar_gt.Part.{Session, start_calls, new_part, owner_turn, thread_turn, rounds}

-- The turns that the owner has before it.
abbrev stage : CallerPc → List Call → ℕ
stage idle (start ∷ cs) = 9
stage (locking start) cs = 8
stage (inside start) cs = 7
stage leaving (resume ∷ cs) = 6
stage idle (resume ∷ cs) = 5
stage (locking resume) cs = 4
stage (inside resume) cs = 3
stage (blocked resume) cs = 2
stage leaving [] = 1
stage pc cs = 0

abbrev pub is_request_run : MtsState → Bool
is_request_run request_run = true
is_request_run _ = false

abbrev pub is_running? : MtsState → Bool
is_running? running = true
is_running? _ = false

abbrev pub is_paused? : MtsState → Bool
is_paused? paused = true
is_paused? _ = false

-- Where the owner may be, with what calls to come, whether there is a thread, and the status.
abbrev fits_start : CallerPc → List Call → Bool → MtsState → Bool
fits_start idle (start ∷ resume ∷ []) alive st = not alive && is_paused? st
fits_start (locking start) (resume ∷ []) alive st = not alive && is_paused? st
fits_start (inside start) (resume ∷ []) alive st = not alive && is_paused? st
fits_start leaving (resume ∷ []) alive st = alive && is_paused? st
fits_start idle (resume ∷ []) alive st = alive && is_paused? st
fits_start (locking resume) [] alive st = alive && is_paused? st
fits_start (inside resume) [] alive st = alive && is_paused? st
fits_start (blocked resume) [] alive request_run = alive
fits_start (blocked resume) [] alive running = alive
fits_start leaving [] alive st = alive && is_running? st
fits_start idle [] alive st = alive && is_running? st
fits_start pc cs alive st = false

pub record IsStarting (s : Session) : Type 0 where
  pub alone : s.system.owner ≡ (if holding (s.system.callers 0) then some (caller 0) else none)
  pub plain : exiting_itself s.system.worker ≡ false
  pub flag : s.system.should_exit ≡ false
  pub thread : is_absent s.system.worker ≡ not s.system.joinable
  pub unfinished : s.system.worker ≢ finished
  pub sleeps : s.system.worker ≡ asleep → may_sleep s.system.status ≡ true
  pub place : fits_start (s.system.callers 0) s.calls s.system.joinable s.system.status ≡ true

-- A measure of what is left of `start`.
abbrev wait_left : CallerPc → List Call → MtsState → WorkerPc → ℕ
wait_left idle [] st pc = 0
wait_left (blocked resume) cs request_run pc = until_wait pc
wait_left (blocked resume) cs st pc = 0
wait_left _ _ _ _ = 7

abbrev pub left : Session → ℕ
left s =
    8 * stage (s.system.callers 0) s.calls
    + wait_left (s.system.callers 0) s.calls s.system.status s.system.worker

thread_turn-IsStarting :
    (debug : Bool) (s : Session) → IsStarting s → IsStarting (thread_turn debug s)
unfolding thread_turn step worker_step
thread_turn-IsStarting debug s h = record {
  alone = ground arith;
  plain = ground arith;
  flag = ground arith;
  thread = ground arith;
  unfinished = ground arith;
  sleeps = ground arith;
  place = ground arith;
}

owner_turn-IsStarting :
    (debug : Bool) (s : Session) → IsStarting s → IsStarting (owner_turn debug s)
unfolding owner_turn step caller_step
owner_turn-IsStarting debug s h = record {
  alone = ground arith;
  plain = ground arith;
  flag = ground arith;
  thread = ground arith;
  unfinished = ground arith;
  sleeps = ground arith;
  place = ground arith;
}

thread_turn-left :
    (debug : Bool) (s : Session)
    → IsStarting s
    → left (thread_turn debug s) ≤ left s - (if is_request_run s.system.status then 1 else 0)
unfolding thread_turn step worker_step
thread_turn-left debug s h = ground arith

owner_turn-left :
    (debug : Bool) (s : Session)
    → IsStarting s
    → left (owner_turn debug s) ≤ left s - (if is_request_run s.system.status then 0 else 1)
unfolding owner_turn step caller_step
owner_turn-left debug s h = ground arith

pub thread_turn-is_request_run :
    (debug : Bool) (s : Session)
    → is_request_run s.system.status ≡ false
    → is_request_run (thread_turn debug s).system.status ≡ false
unfolding thread_turn step worker_step
thread_turn-is_request_run debug s h = ground arith

pub asked : Session → Bool
asked s = is_request_run s.system.status

pub start-IsProgress :
    (debug : Bool) → IsProgress (thread_turn debug) (owner_turn debug) IsStarting left asked
unfolding asked
start-IsProgress debug = record {
  thread_keeps = thread_turn-IsStarting debug;
  owner_keeps = owner_turn-IsStarting debug;
  thread_left = thread_turn-left debug;
  owner_left = owner_turn-left debug;
  goes_on = λ s h. thread_turn-is_request_run debug s;
}

pub new_part-IsStarting : IsStarting (new_part (start_calls true))
unfolding new_part init new_thread init_status
new_part-IsStarting = record {
  alone = refl;
  plain = refl;
  flag = refl;
  thread = refl;
  unfinished = λ e. cc;
  sleeps = λ e. cc;
  place = refl;
}

pub new_part-left : left (new_part (start_calls true)) ≤ 79
unfolding new_part init new_thread init_status
new_part-left = omega arith

pub start_done :
    (s : Session)
    → IsStarting s
    → left s ≤ 0
    → (s.system.callers 0 ≡ idle)
      × (s.calls ≡ [])
      × (s.system.status ≡ running)
      × (s.system.joinable ≡ true)
start_done s h done = (ground arith, ground arith, ground arith, ground arith)

pub start_returns :
    (debug : Bool) (ks : List ℕ)
    → 79 ≤ length ks
    → let s = rounds debug ks (new_part (start_calls true)) in
      IsStarting s
      × (s.system.callers 0 ≡ idle)
      × (s.calls ≡ [])
      × (s.system.status ≡ running)
      × (s.system.joinable ≡ true)
start_returns debug ks enough =
    let (h, less) =
      rounds-left (start-IsProgress debug) ks (new_part (start_calls true)) new_part-IsStarting in
    let (at_rest, all, runs, alive) = start_done _ h (omega (arith, less, new_part-left)) in
    (h, at_rest, all, runs, alive)
