-- ===== src/ManagedThread/Handshake.antt =====
-- `suspend` and `resume` return: the thread answers a request within seven of its turns.
use donkeycar_gt.Prelude.Relations.{All}
use donkeycar_gt.Prelude.{
  ℕ, ◌≤◌, ◌-◌, ◌≡◌, refl, ◌≢◌, Bool, true, false, List, [], ◌∷◌, arith, if◌then◌else◌,
}
use donkeycar_gt.TaskStatus.{MtsState, running, paused, request_run, request_exit, init_status}
use donkeycar_gt.ManagedThread.Worker.{
  WorkerPc, loop_test, exit_test, ask_exit, enter_wait, asleep, check_exit, updating, finished,
  worker_step, new_thread,
}
use donkeycar_gt.ManagedThread.Caller.{
  Call, CallerPc, suspend, graceful_exit, locking, inside, blocked, leaving, caller_step,
}
use donkeycar_gt.ManagedThread.System.{
  Turn, of_worker, of_caller, System, step, run, init, run_induction,
}
use donkeycar_gt.ManagedThread.Ownership.{Inv, init-Inv, step-Inv, calm, is_handshake}
use donkeycar_gt.ManagedThread.Exit.{exiting_itself, worker_turns}

-- Nobody asks the thread to exit: neither a caller nor `should_exit()`.
abbrev pub NoExit : Turn → Type 0
NoExit (of_worker answer) = answer ≡ false
NoExit (of_caller i next) = next ≢ graceful_exit

abbrev exits : CallerPc → Bool
exits CallerPc.set_flag = true
exits (locking graceful_exit) = true
exits (inside graceful_exit) = true
exits _ = false

abbrev pub may_sleep : MtsState → Bool
may_sleep paused = true
may_sleep request_run = true
may_sleep _ = false

-- What holds of an object that nobody has asked to exit.
record IsManaged (s : System) : Type 0 where
  inv : Inv s
  flag : s.should_exit ≡ false
  status : s.status ≢ request_exit
  plain : exiting_itself s.worker ≡ false
  unfinished : s.worker ≢ finished
  sleeps : s.worker ≡ asleep → may_sleep s.status ≡ true
  nobody : (i : ℕ) → exits (s.callers i) ≡ false

init-IsManaged : (start_paused : Bool) → IsManaged (init start_paused)
unfolding init new_thread init_status
init-IsManaged start_paused = record {
  inv = init-Inv start_paused;
  flag = refl;
  status = ground arith;
  plain = refl;
  unfinished = λ e. cc;
  sleeps = λ e. cc;
  nobody = λ i. refl;
}

step-IsManaged :
    (debug : Bool) (t : Turn) (s : System) → NoExit t → IsManaged s → IsManaged (step debug t s)
unfolding step worker_step caller_step
step-IsManaged debug (of_worker answer) s q h = record {
  inv = step-Inv debug (of_worker answer) s h.inv;
  flag = ground arith;
  status = ground arith;
  plain = ground arith;
  unfinished = ground arith;
  sleeps = ground arith;
  nobody = λ i. ground (arith, h.nobody i);
}
step-IsManaged debug (of_caller i next) s q h = record {
  inv = step-Inv debug (of_caller i next) s h.inv;
  flag = ground (arith, h.nobody i);
  status = ground (arith, h.nobody i);
  plain = ground (arith, h.nobody i);
  unfinished = ground (arith, h.nobody i);
  sleeps = ground (arith, h.nobody i, h.inv.agrees, h.inv.owns i);
  nobody = λ j. ground (arith, h.nobody i, h.nobody j);
}

-- The turns of the thread up to its next look at the status.
abbrev pub until_wait : WorkerPc → ℕ
until_wait enter_wait = 1
until_wait asleep = 1
until_wait ask_exit = 2
until_wait exit_test = 3
until_wait loop_test = 4
until_wait updating = 5
until_wait check_exit = 6
until_wait _ = 7

-- The turns of the thread up to its answer, if one is due.
abbrev until_answer : System → ℕ
until_answer s = if calm s.status then 0 else until_wait s.worker

-- Caller `i` waits in `suspend` or `resume` for a thread that has been started.
record IsWaiting (i : ℕ) (c : Call) (s : System) : Type 0 where
  managed : IsManaged s
  here : s.callers i ≡ blocked c
  hand : is_handshake c ≡ true
  alive : s.joinable ≡ true

-- The turns of everybody but caller `i`.
abbrev pub Others : ℕ → Turn → Type 0
Others i (of_worker answer) = answer ≡ false
Others i (of_caller j next) = (next ≢ graceful_exit) × (j ≢ i)

worker-IsWaiting :
    (debug : Bool) (i : ℕ) (c : Call) (s : System)
    → IsWaiting i c s
    → IsWaiting i c (step debug (of_worker false) s)
      × (until_answer (step debug (of_worker false) s) ≤ until_answer s - 1)
unfolding step worker_step
worker-IsWaiting debug i c s h = (
  record {
    managed = step-IsManaged debug (of_worker false) s refl h.managed;
    here = ground (arith, h.here);
    hand = h.hand;
    alive = ground arith;
  },
  ground (
    arith, h.managed.inv.thread, h.managed.flag, h.managed.plain, h.managed.unfinished,
    h.managed.sleeps,
  ),
)

caller-IsWaiting :
    (debug : Bool) (i j : ℕ) (next c : Call) (s : System)
    → next ≢ graceful_exit
    → j ≢ i
    → IsWaiting i c s
    → IsWaiting i c (step debug (of_caller j next) s)
      × (until_answer (step debug (of_caller j next) s) ≤ until_answer s)
unfolding step caller_step
caller-IsWaiting debug i j next c s q ne h = (
  record {
    managed = step-IsManaged debug (of_caller j next) s q h.managed;
    here = ground (arith, h.here);
    hand = h.hand;
    alive = ground (arith, h.managed.inv.owns i, h.managed.inv.owns j);
  },
  ground (arith, h.managed.inv.owns i, h.managed.inv.owns j),
)

run-IsWaiting :
    (debug : Bool) (i : ℕ) (c : Call) (ts : List Turn) (s : System)
    → All (Others i) ts
    → IsWaiting i c s
    → IsWaiting i c (run debug ts s)
      × (until_answer (run debug ts s) ≤ until_answer s - worker_turns ts)
unfolding run
run-IsWaiting debug i c [] s q h = (h, omega arith)
run-IsWaiting debug i c (of_worker false ∷ ts) s q h =
    let (h', answered) = worker-IsWaiting debug i c s h in
    let (last, rest) = run-IsWaiting debug i c ts _ q.1 h' in (last, omega arith)
run-IsWaiting debug i c (of_worker true ∷ ts) s q h = cc (q.0)
run-IsWaiting debug i c (of_caller j next ∷ ts) s q h =
    let (h', kept) = caller-IsWaiting debug i j next c s q.0.0 q.0.1 h in
    let (last, rest) = run-IsWaiting debug i c ts _ q.1 h' in (last, omega arith)

until_answer-le : (s : System) → until_answer s ≤ 7
until_answer-le s = ground arith

-- The status in which `suspend` and `resume` return.
abbrev pub target : Call → MtsState
target suspend = paused
target _ = running

answered-returns :
    (debug : Bool) (i : ℕ) (next c : Call) (s : System)
    → IsWaiting i c s
    → until_answer s ≤ 0
    → ((step debug (of_caller i next) s).callers i ≡ leaving)
      × ((step debug (of_caller i next) s).status ≡ target c)
unfolding step caller_step
answered-returns debug i next c s h done = (
  ground (arith, h.here, h.hand, h.managed.inv.owns i, h.managed.inv.agrees),
  ground (arith, h.here, h.hand, h.managed.inv.owns i, h.managed.inv.agrees),
)

run-init-IsManaged :
    (debug start_paused : Bool) (ts : List Turn)
    → All NoExit ts
    → IsManaged (run debug ts (init start_paused))
run-init-IsManaged debug start_paused ts q =
    run_induction debug IsManaged NoExit (step-IsManaged debug) ts _ q (init-IsManaged start_paused)

-- While nobody asks the thread to exit, a caller that waits in `suspend` or `resume` for a thread that
-- was started is answered within seven turns of the thread, whatever the other callers do meanwhile:
-- at its next turn after those the call returns, with the status paused or running that it asked for.
pub handshake_completes :
    (debug start_paused : Bool) (before after : List Turn) (i : ℕ) (next c : Call)
    → let s = run debug before (init start_paused) in
      let u = step debug (of_caller i next) (run debug after s) in
      All NoExit before
      → s.callers i ≡ blocked c
      → is_handshake c ≡ true
      → s.joinable ≡ true
      → All (Others i) after
      → 7 ≤ worker_turns after
      → (u.callers i ≡ leaving) × (u.status ≡ target c)
handshake_completes debug start_paused before after i next c q here hand alive others enough =
    answered-returns debug i next c _ last.0
      (omega (arith, last.1, until_answer-le (run debug before (init start_paused))))
  where
    s : System
    s = run debug before (init start_paused)

    last :
        IsWaiting i c (run debug after s)
        × (until_answer (run debug after s) ≤ until_answer s - worker_turns after)
    last = run-IsWaiting debug i c after s others (record {
      managed = run-init-IsManaged debug start_paused before q;
      here = here;
      hand = hand;
      alive = alive;
    })
