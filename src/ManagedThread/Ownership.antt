-- ===== src/ManagedThread/Ownership.antt =====
-- Who holds `m_mutex_pause_resume`, and what the status may then be: an invariant of every execution.
use donkeycar_gt.Prelude.{
  ℕ, ◌≡◌, refl, ◌≢◌, Bool, true, false, not, Option, none, some, List, arith,
}
use donkeycar_gt.TaskStatus.{
  MtsState, running, request_pause, paused, request_run, request_exit, init_status,
}
use donkeycar_gt.ManagedThread.Worker.{
  WorkerPc, Agent, worker, caller, absent, flag_status, drop_lock, worker_step, new_thread,
}
use donkeycar_gt.ManagedThread.Caller.{
  Call, CallerPc, resume, suspend, join, inside, blocked, leaving, aborted, caller_step,
}
use donkeycar_gt.ManagedThread.System.{
  Turn, of_worker, of_caller, System, step, run, init, run_induction, Anything, All-Anything,
}

-- Between the lock and the end of the `Lock`; a process that aborts never unlocks.
abbrev pub holding : CallerPc → Bool
holding (inside c) = true
holding (blocked c) = true
holding leaving = true
holding aborted = true
holding _ = false

abbrev pub thread_holding : WorkerPc → Bool
thread_holding flag_status = true
thread_holding drop_lock = true
thread_holding _ = false

-- No handshake is under way.
abbrev pub calm : MtsState → Bool
calm request_pause = false
calm request_run = false
calm _ = true

abbrev pub in_pausing : MtsState → Bool
in_pausing request_pause = true
in_pausing paused = true
in_pausing _ = false

abbrev pub in_resuming : MtsState → Bool
in_resuming request_run = true
in_resuming running = true
in_resuming _ = false

-- The status that a holder of the mutex may see.
abbrev fits : CallerPc → MtsState → Bool
fits (blocked suspend) s = in_pausing s
fits (blocked resume) s = in_resuming s
fits pc s = calm s

abbrev pub agreed : Option Agent → (ℕ → CallerPc) → MtsState → Bool
agreed none pcs s = calm s
agreed (some worker) pcs s = calm s
agreed (some (caller i)) pcs s = fits (pcs i) s

abbrev pub is_absent : WorkerPc → Bool
is_absent absent = true
is_absent _ = false

pub record Inv (s : System) : Type 0 where
  pub owns : (i : ℕ) → holding (s.callers i) ≡ true → s.owner ≡ some (caller i)
  pub thread_owns : thread_holding s.worker ≡ true → s.owner ≡ some worker
  pub agrees : agreed s.owner s.callers s.status ≡ true
  pub thread : is_absent s.worker ≡ not s.joinable
  pub joins : (i : ℕ) → s.callers i ≡ blocked join → s.joinable ≡ true

pub init-Inv : (start_paused : Bool) → Inv (init start_paused)
unfolding init new_thread init_status
init-Inv true = record {
  owns = λ i e. cc;
  thread_owns = λ e. cc;
  agrees = refl;
  thread = refl;
  joins = λ i e. cc;
}
init-Inv false = record {
  owns = λ i e. cc;
  thread_owns = λ e. cc;
  agrees = refl;
  thread = refl;
  joins = λ i e. cc;
}

worker-Inv : (debug answer : Bool) (s : System) → Inv s → Inv (step debug (of_worker answer) s)
unfolding step worker_step
worker-Inv debug answer s v = record {
  owns = λ i. ground (arith, v.owns i);
  thread_owns = ground arith;
  agrees = ground arith;
  thread = ground arith;
  joins = λ i. ground (arith, v.joins i);
}

caller-Inv :
    (debug : Bool) (i : ℕ) (next : Call) (s : System)
    → Inv s
    → Inv (step debug (of_caller i next) s)
unfolding step caller_step
caller-Inv debug i next s v = record {
  owns = λ j. ground (arith, v.owns i, v.owns j);
  thread_owns = ground (arith, v.owns i);
  agrees = ground (arith, v.owns i);
  thread = ground (arith, v.joins i);
  joins = λ j. ground (arith, v.joins i, v.joins j, v.owns i, v.owns j);
}

pub step-Inv : (debug : Bool) (t : Turn) (s : System) → Inv s → Inv (step debug t s)
step-Inv debug (of_worker answer) s v = worker-Inv debug answer s v
step-Inv debug (of_caller i next) s v = caller-Inv debug i next s v

pub run-step-Inv : (debug : Bool) (ts : List Turn) (s : System) → Inv s → Inv (run debug ts s)
run-step-Inv debug ts s v =
    run_induction debug Inv Anything (λ t s _. step-Inv debug t s) ts s (All-Anything ts) v

pub run-Inv : (debug start_paused : Bool) (ts : List Turn) → Inv (run debug ts (init start_paused))
run-Inv debug start_paused ts = run-step-Inv debug ts _ (init-Inv start_paused)

-- In any execution of a new object at most one thread is inside `start`, `resume`, `suspend`,
-- `graceful_exit` or `join` past its lock: of two callers that are, both are one, and the managed
-- thread is then not inside its own `graceful_exit`.
pub one_manager :
    (debug start_paused : Bool) (ts : List Turn) (i j : ℕ)
    → let s = run debug ts (init start_paused) in
      holding (s.callers i) ≡ true
      → holding (s.callers j) ≡ true
      → (i ≡ j) × (thread_holding s.worker ≡ false)
one_manager debug start_paused ts i j hi hj = ground (arith, v.owns i, v.owns j, v.thread_owns)
  where
    v : Inv (run debug ts (init start_paused))
    v = run-Inv debug start_paused ts

abbrev pub is_handshake : Call → Bool
is_handshake suspend = true
is_handshake resume = true
is_handshake _ = false

inside-not-aborted :
    (debug : Bool) (i : ℕ) (next c : Call) (s : System)
    → Inv s
    → s.callers i ≡ inside c
    → is_handshake c ≡ true
    → s.status ≢ request_exit
    → (step debug (of_caller i next) s).callers i ≢ aborted
unfolding step caller_step
inside-not-aborted debug i next c s v e k h = ground (arith, v.owns i)

-- In any execution of a new object, an assertion of `suspend` or `resume` fails only if the thread has
-- been told to exit: in every other status the call goes on, whatever the other threads do.
pub handshake_asserts :
    (debug start_paused : Bool) (ts : List Turn) (i : ℕ) (next c : Call)
    → let s = run debug ts (init start_paused) in
      s.callers i ≡ inside c
      → is_handshake c ≡ true
      → s.status ≢ request_exit
      → (step debug (of_caller i next) s).callers i ≢ aborted
handshake_asserts debug start_paused ts i next c =
    inside-not-aborted debug i next c _ (run-Inv debug start_paused ts)
