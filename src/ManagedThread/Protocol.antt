-- ===== src/ManagedThread/Protocol.antt =====
-- include/managed-task-status.h: the protocol of the states, as an automaton, and src/managed-thread.cpp as
-- an implementation of it.
use donkeycar_gt.Prelude.{◌≡◌, Bool, true, false, List, [], ◌∷◌, arith}
use donkeycar_gt.TaskStatus.{MtsState, running, request_pause, paused, request_run, request_exit}
use donkeycar_gt.ManagedThread.Worker.{worker_step}
use donkeycar_gt.ManagedThread.Caller.{caller_step}
use donkeycar_gt.ManagedThread.System.{Turn, of_worker, of_caller, System, step, run}

-- Who may change the state, and to what: the thread answers the requests that the others make, anyone may
-- ask for the exit, and nothing follows it.
abbrev pub may : Turn → MtsState → MtsState → Bool
may t s request_exit = true
may t running running = true
may t request_pause request_pause = true
may t paused paused = true
may t request_run request_run = true
may (of_caller i next) running request_pause = true
may (of_worker answer) request_pause paused = true
may (of_caller i next) paused request_run = true
may (of_worker answer) request_run running = true
may t s u = false

-- A run of the automaton by these turns.
pub data Moves : List Turn → MtsState → MtsState → Type 0 where
  rest : {s : MtsState} → Moves [] s s
  move :
      {t : Turn} {ts : List Turn} {s u v : MtsState}
      → may t s u ≡ true
      → Moves ts u v
      → Moves (t ∷ ts) s v

step-may : (t : Turn) (s : System) → may t s.status (step true t s).status ≡ true
unfolding step worker_step caller_step
step-may (of_worker answer) s = ground arith
step-may (of_caller i next) s = ground arith

-- In a build with assertions every execution of an object is, state by state, a run of the automaton: the
-- object refines the protocol, whatever the callers do and in whatever order.
pub run-Moves : (ts : List Turn) (s : System) → Moves ts s.status (run true ts s).status
unfolding run
run-Moves [] s = rest
run-Moves (t ∷ ts) s = move (step-may t s) (run-Moves ts (step true t s))

may-exit : (t : Turn) (u : MtsState) → may t request_exit u ≡ true → u ≡ request_exit
may-exit t u e = ground arith

-- Nothing follows the request to exit.
pub Moves-exit :
    {ts : List Turn} {s u : MtsState} → Moves ts s u → s ≡ request_exit → u ≡ request_exit
Moves-exit rest e = e
Moves-exit (move {t} {u} allowed later) e = Moves-exit later (may-exit t u (rw e at allowed))
