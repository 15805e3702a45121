-- ===== src/ManagedThread/Restart.antt =====
-- src/managed-thread.cpp: what a second `start` does after `graceful_exit`. It resets `m_should_exit`, but
-- the state of the task stays at the request to exit.
use donkeycar_gt.Prelude.{ℕ, ◌+◌, ◌≤◌, ◌≡◌, true, false, List, [], ◌∷◌, arith}
use donkeycar_gt.TaskStatus.{request_exit}
use donkeycar_gt.ManagedThread.Worker.{WorkerPc, check_flag, check_exit, worker_step}
use donkeycar_gt.ManagedThread.Caller.{caller_step}
use donkeycar_gt.ManagedThread.System.{
  Turn, of_worker, of_caller, System, step, run, updates, begins,
}
use donkeycar_gt.ManagedThread.Protocol.{run-Moves, Moves-exit}
use donkeycar_gt.ManagedThread.Quiet.{in_round}

-- 1 if the thread has left `wait_to_run` with true and has not reached `update()` yet.
abbrev pub before_update : WorkerPc → ℕ
before_update (check_flag true) = 1
before_update check_exit = 1
before_update _ = 0

step-before_update :
    (t : Turn) (s : System)
    → s.status ≡ request_exit
    → ((step true t s).status ≡ request_exit)
      × (begins s (step true t s) + before_update (step true t s).worker ≤ before_update s.worker)
unfolding step worker_step caller_step
step-before_update (of_worker answer) s e = (ground arith, ground arith)
step-before_update (of_caller i next) s e = (ground arith, ground arith)

updates-le-before_update :
    (ts : List Turn) (s : System)
    → s.status ≡ request_exit
    → updates true ts s ≤ before_update s.worker
unfolding updates
updates-le-before_update [] s e = omega arith
updates-le-before_update (t ∷ ts) s e =
    let (e', spent) = step-before_update t s e in
    omega (arith, updates-le-before_update ts (step true t s) e')

-- In a build with assertions the request to exit is final: the state stays at it in every schedule,
-- `start` and `resume` included, and no call of `update()` begins any more but the one that the thread may
-- be on its way to. So a thread that is started again never updates.
pub restart_never_updates :
    (ts : List Turn) (s : System)
    → s.status ≡ request_exit
    → ((run true ts s).status ≡ request_exit)
      × (updates true ts s ≤ 1)
      × (in_round s.worker ≡ false → updates true ts s ≡ 0)
restart_never_updates ts s e =
    let few = updates-le-before_update ts s e in
    (Moves-exit (run-Moves ts s) e, ground arith, λ outside. ground arith)
