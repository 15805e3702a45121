-- ===== src/ManagedThread/Quiet.antt =====
-- A paused thread does no work: what `suspend` promises to its caller.
use donkeycar_gt.Prelude.Relations.{All}
use donkeycar_gt.Prelude.{ℕ, ◌≡◌, refl, ◌≢◌, Bool, true, false, List, [], ◌∷◌, arith}
use donkeycar_gt.TaskStatus.{running, paused, request_run}
use donkeycar_gt.ManagedThread.Worker.{
  WorkerPc, check_flag, check_exit, updating, worker_step, new_thread,
}
use donkeycar_gt.ManagedThread.Caller.{
  Call, CallerPc, resume, suspend, locking, inside, blocked, leaving, caller_step,
}
use donkeycar_gt.ManagedThread.System.{
  run_induction, Anything, All-Anything, begins, updates, Turn, of_worker, of_caller, System, step,
  run, init,
}

-- From the return of `wait_to_run` with true to the end of `update()`.
abbrev pub in_round : WorkerPc → Bool
in_round (check_flag true) = true
in_round check_exit = true
in_round updating = true
in_round _ = false

abbrev IsSafe : System → Type 0
IsSafe s = s.status ≡ paused → in_round s.worker ≡ false

step-IsSafe : (debug : Bool) (t : Turn) (s : System) → IsSafe s → IsSafe (step debug t s)
unfolding step worker_step caller_step
step-IsSafe debug (of_worker answer) s h = ground arith
step-IsSafe debug (of_caller i next) s h = ground arith

run-IsSafe :
    (debug start_paused : Bool) (ts : List Turn) → IsSafe (run debug ts (init start_paused))
unfolding init new_thread
run-IsSafe debug start_paused ts =
    run_induction debug IsSafe Anything (λ t s _. step-IsSafe debug t s) ts _ (All-Anything ts)
      λ _. refl

-- A caller that is on its way to write `REQUEST_RUN`.
abbrev pub resuming : CallerPc → Bool
resuming (locking resume) = true
resuming (inside resume) = true
resuming _ = false

abbrev pub KeepsAway : Turn → Type 0
KeepsAway (of_worker answer) = Unit
KeepsAway (of_caller i next) = next ≢ resume

-- No round is going on, and none can begin unless somebody resumes the thread.
record IsHalted (s : System) : Type 0 where
  not_running : s.status ≢ running
  not_requested : s.status ≢ request_run
  no_round : in_round s.worker ≡ false
  nobody : (i : ℕ) → resuming (s.callers i) ≡ false

step-IsHalted :
    (debug : Bool) (t : Turn) (s : System)
    → KeepsAway t
    → IsHalted s
    → IsHalted (step debug t s) × (begins s (step debug t s) ≡ 0)
unfolding step worker_step caller_step
step-IsHalted debug (of_worker answer) s q h = (
  record {
    not_running = ground arith;
    not_requested = ground arith;
    no_round = ground arith;
    nobody = ground arith;
  },
  ground arith,
)
step-IsHalted debug (of_caller i next) s q h = (
  record {
    not_running = ground (arith, h.nobody i);
    not_requested = ground (arith, h.nobody i);
    no_round = ground (arith, h.nobody i);
    nobody = λ j. ground (arith, h.nobody i, h.nobody j);
  },
  ground (arith, h.nobody i),
)

run-updates_zero :
    (debug : Bool) (ts : List Turn) (s : System)
    → All KeepsAway ts
    → IsHalted s
    → updates debug ts s ≡ 0
unfolding updates
run-updates_zero debug [] s q h = refl
run-updates_zero debug (t ∷ ts) s q h =
    let (h', none_began) = step-IsHalted debug t s q.0 h in
    omega (arith, run-updates_zero debug ts (step debug t s) q.1 h')

abbrev pub suspending : CallerPc → Bool
suspending (inside suspend) = true
suspending (blocked suspend) = true
suspending _ = false

pub suspend-returns-paused :
    (debug : Bool) (i : ℕ) (next : Call) (s : System)
    → suspending (s.callers i) ≡ true
    → (step debug (of_caller i next) s).callers i ≡ leaving
    → (step debug (of_caller i next) s).status ≡ paused
unfolding step caller_step
suspend-returns-paused debug i next s h e = ground arith

-- When `suspend` returns to caller `i`, in any execution of a new object, the status is paused and the
-- thread is not in a round; and from then on no call of `update()` begins, whatever all the threads
-- do, `graceful_exit` and `start` included, unless one is calling or calls `resume`.
pub suspend_halts :
    (debug start_paused : Bool) (before after : List Turn) (i : ℕ) (next : Call)
    → let s = run debug before (init start_paused) in
      let t = step debug (of_caller i next) s in
      suspending (s.callers i) ≡ true
      → t.callers i ≡ leaving
      → ((j : ℕ) → resuming (t.callers j) ≡ false)
      → All KeepsAway after
      → (t.status ≡ paused) × (in_round t.worker ≡ false) × (updates debug after t ≡ 0)
suspend_halts debug start_paused before after i next h e nobody away = (
  at_rest,
  no_round,
  run-updates_zero debug after t away (record {
    not_running = λ e. cc at_rest;
    not_requested = λ e. cc at_rest;
    no_round = no_round;
    nobody = nobody;
  }),
)
  where
    s : System
    s = run debug before (init start_paused)

    t : System
    t = step debug (of_caller i next) s

    at_rest : t.status ≡ paused
    at_rest = suspend-returns-paused debug i next s h e

    no_round : in_round t.worker ≡ false
    no_round = step-IsSafe debug (of_caller i next) s (run-IsSafe debug start_paused before) at_rest
