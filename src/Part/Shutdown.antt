-- ===== src/Part/Shutdown.antt =====
-- include/parts/part.hpp, `shutdown`: it returns, and leaves no thread.
use donkeycar_gt.Prelude.{
  ℕ, ◌+◌, ◌-◌, ◌*◌, ◌≤◌, ◌≡◌, ◌≢◌, Bool, true, false, not, ◌&&◌, none, some, List, [], ◌∷◌, length,
  if◌then◌else◌, arith,
}
use donkeycar_gt.TaskStatus.{MtsState, running, request_exit}
use donkeycar_gt.ManagedThread.Worker.{WorkerPc, caller, absent, asleep, finished, worker_step}
use donkeycar_gt.ManagedThread.Caller.{
  Call, CallerPc, idle, set_flag, locking, inside, blocked, leaving, graceful_exit, join,
  caller_step,
}
use donkeycar_gt.ManagedThread.System.{step}
use donkeycar_gt.ManagedThread.Ownership.{holding, is_absent}
use donkeycar_gt.ManagedThread.Exit.{exiting_itself, rounds_left}
use donkeycar_gt.Part.{Session, owner_turn, thread_turn, rounds}
use donkeycar_gt.Prelude.Rounds.{IsProgress, rounds-left}

-- The turns that the owner has before it.
abbrev pub stage : CallerPc → List Call → ℕ
stage idle (graceful_exit ∷ cs) = 10
stage set_flag cs = 9
stage (locking graceful_exit) cs = 8
stage (inside graceful_exit) cs = 7
stage leaving (join ∷ cs) = 6
stage idle (join ∷ cs) = 5
stage (locking join) cs = 4
stage (inside join) cs = 3
stage (blocked join) cs = 2
stage leaving [] = 1
stage pc cs = 0

abbrev is_running? : MtsState → Bool
is_running? running = true
is_running? _ = false

abbrev pub is_exit? : MtsState → Bool
is_exit? request_exit = true
is_exit? _ = false

-- Where the owner may be, with what calls to come, whether there is a thread and it was told to exit, and
-- the status.
abbrev fits_shutdown : CallerPc → List Call → (alive told : Bool) → MtsState → Bool
fits_shutdown idle (graceful_exit ∷ join ∷ []) alive told st = alive && not told && is_running? st
fits_shutdown set_flag (join ∷ []) alive told st = alive && not told && is_running? st
fits_shutdown (locking graceful_exit) (join ∷ []) alive told st = alive && told && is_running? st
fits_shutdown (inside graceful_exit) (join ∷ []) alive told st = alive && told && is_running? st
fits_shutdown leaving (join ∷ []) alive told st = alive && told && is_exit? st
fits_shutdown idle (join ∷ []) alive told st = alive && told && is_exit? st
fits_shutdown (locking join) [] alive told st = alive && told && is_exit? st
fits_shutdown (inside join) [] alive told st = alive && told && is_exit? st
fits_shutdown (blocked join) [] alive told st = alive && told && is_exit? st
fits_shutdown leaving [] alive told st = not alive && told && is_exit? st
fits_shutdown idle [] alive told st = not alive && told && is_exit? st
fits_shutdown pc cs alive told st = false

pub record IsStopping (s : Session) : Type 0 where
  pub alone : s.system.owner ≡ (if holding (s.system.callers 0) then some (caller 0) else none)
  pub plain : exiting_itself s.system.worker ≡ false
  pub thread : is_absent s.system.worker ≡ not s.system.joinable
  pub unfinished : s.system.worker ≡ finished → s.system.should_exit ≡ true
  pub awake : s.system.worker ≢ asleep
  pub place :
      fits_shutdown
        (s.system.callers 0)
        s.calls
        s.system.joinable
        s.system.should_exit
        s.system.status
      ≡ true

-- A measure of what is left of `shutdown`.
abbrev pub wait_left : CallerPc → List Call → WorkerPc → ℕ
wait_left idle [] pc = 0
wait_left (blocked join) cs pc = rounds_left pc
wait_left _ _ _ = 7

abbrev pub left : Session → ℕ
left s =
    8 * stage (s.system.callers 0) s.calls + wait_left (s.system.callers 0) s.calls s.system.worker

-- Whether the owner waits for a thread that has not returned.
abbrev pub is_joining : CallerPc → WorkerPc → Bool
is_joining (blocked join) finished = false
is_joining (blocked join) pc = true
is_joining _ pc = false

thread_turn-IsStopping :
    (debug : Bool) (s : Session) → IsStopping s → IsStopping (thread_turn debug s)
unfolding thread_turn step worker_step
thread_turn-IsStopping debug s h = record {
  alone = ground arith;
  plain = ground arith;
  thread = ground arith;
  unfinished = ground arith;
  awake = ground arith;
  place = ground arith;
}

owner_turn-IsStopping :
    (debug : Bool) (s : Session) → IsStopping s → IsStopping (owner_turn debug s)
unfolding owner_turn step caller_step
owner_turn-IsStopping debug s h = record {
  alone = ground arith;
  plain = ground arith;
  thread = ground arith;
  unfinished = ground arith;
  awake = ground arith;
  place = ground arith;
}

thread_turn-left :
    (debug : Bool) (s : Session)
    → IsStopping s
    → left (thread_turn debug s)
      ≤ left s - (if is_joining (s.system.callers 0) s.system.worker then 1 else 0)
unfolding thread_turn step worker_step
thread_turn-left debug s h = ground arith

owner_turn-left :
    (debug : Bool) (s : Session)
    → IsStopping s
    → left (owner_turn debug s)
      ≤ left s - (if is_joining (s.system.callers 0) s.system.worker then 0 else 1)
unfolding owner_turn step caller_step
owner_turn-left debug s h = ground arith

pub joins : Session → Bool
joins s = is_joining (s.system.callers 0) s.system.worker

thread_turn-joins :
    (debug : Bool) (s : Session)
    → is_joining (s.system.callers 0) s.system.worker ≡ false
    → is_joining ((thread_turn debug s).system.callers 0) (thread_turn debug s).system.worker
      ≡ false
unfolding thread_turn step worker_step
thread_turn-joins debug s h = ground arith

pub shutdown-IsProgress :
    (debug : Bool) → IsProgress (thread_turn debug) (owner_turn debug) IsStopping left joins
unfolding joins
shutdown-IsProgress debug = record {
  thread_keeps = thread_turn-IsStopping debug;
  owner_keeps = owner_turn-IsStopping debug;
  thread_left = thread_turn-left debug;
  owner_left = owner_turn-left debug;
  goes_on = λ s h. thread_turn-joins debug s;
}

pub left-le : (s : Session) → s.system.callers 0 ≡ idle → left s ≤ 87
left-le s h = ground arith

pub shutdown_done :
    (s : Session)
    → IsStopping s
    → left s ≤ 0
    → (s.system.callers 0 ≡ idle)
      × (s.calls ≡ [])
      × (s.system.joinable ≡ false)
      × (s.system.worker ≡ absent)
shutdown_done s h done = (ground arith, ground arith, ground arith, ground arith)

pub shutdown_returns :
    (debug : Bool) (ks : List ℕ) (s : Session)
    → IsStopping s
    → s.system.callers 0 ≡ idle
    → 87 ≤ length ks
    → let t = rounds debug ks s in
      (t.system.callers 0 ≡ idle)
      × (t.calls ≡ [])
      × (t.system.joinable ≡ false)
      × (t.system.worker ≡ absent)
shutdown_returns debug ks s h at_rest enough =
    let (h', less) = rounds-left (shutdown-IsProgress debug) ks s h in
    shutdown_done _ h' (omega (arith, less, left-le s at_rest))
