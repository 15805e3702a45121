-- ===== src/ManagedThread/Unasserted.antt =====
-- src/managed-thread.cpp in a build without assertions: `suspend` and `resume` after the exit.
use donkeycar_gt.Prelude.{ℕ, ◌≡◌, ◌≢◌, Bool, true, false, List, ◌∷◌, arith}
use donkeycar_gt.TaskStatus.{request_exit}
use donkeycar_gt.ManagedThread.Worker.{WorkerPc, absent, finished, worker_step}
use donkeycar_gt.ManagedThread.Caller.{Call, inside, blocked, caller_step}
use donkeycar_gt.ManagedThread.System.{
  Turn, of_worker, of_caller, System, step, run, init, run_induction, Anything, All-Anything,
}
use donkeycar_gt.ManagedThread.Ownership.{Inv, run-Inv, step-Inv, calm, is_handshake}

abbrev pub is_gone : WorkerPc → Bool
is_gone absent = true
is_gone finished = true
is_gone _ = false

record IsAbandoned (i : ℕ) (c : Call) (s : System) : Type 0 where
  inv : Inv s
  gone : is_gone s.worker ≡ true
  here : s.callers i ≡ blocked c
  hand : is_handshake c ≡ true
  unanswered : calm s.status ≡ false

step-IsAbandoned :
    (i : ℕ) (c : Call) (t : Turn) (s : System)
    → IsAbandoned i c s
    → IsAbandoned i c (step false t s)
unfolding step worker_step caller_step
step-IsAbandoned i c (of_worker answer) s h = record {
  inv = step-Inv false (of_worker answer) s h.inv;
  gone = ground arith;
  here = ground (arith, h.here);
  hand = h.hand;
  unanswered = ground arith;
}
step-IsAbandoned i c (of_caller j next) s h = record {
  inv = step-Inv false (of_caller j next) s h.inv;
  gone = ground (arith, h.here, h.inv.owns i, h.inv.owns j);
  here = ground (arith, h.here, h.inv.owns i, h.inv.owns j);
  hand = h.hand;
  unanswered = ground (arith, h.here, h.inv.owns i, h.inv.owns j);
}

enters-IsAbandoned :
    (i : ℕ) (next c : Call) (s : System)
    → Inv s
    → s.callers i ≡ inside c
    → is_handshake c ≡ true
    → s.status ≡ request_exit
    → is_gone s.worker ≡ true
    → IsAbandoned i c (step false (of_caller i next) s)
unfolding step caller_step
enters-IsAbandoned i next c s v here hand told gone = record {
  inv = step-Inv false (of_caller i next) s v;
  gone = ground (arith, here);
  here = ground (arith, here);
  hand = hand;
  unanswered = ground (arith, here);
}

-- In a build without assertions, a `suspend` or `resume` that gets the mutex after the thread has exited
-- overwrites the request to exit and never returns, in any schedule: no thread is left to answer it.
pub handshake_after_exit_hangs :
    (start_paused : Bool) (before after : List Turn) (i : ℕ) (next c : Call)
    → let s = run false before (init start_paused) in
      let t = run false (of_caller i next ∷ after) s in
      s.callers i ≡ inside c
      → is_handshake c ≡ true
      → s.status ≡ request_exit
      → is_gone s.worker ≡ true
      → (t.callers i ≡ blocked c) × (t.status ≢ request_exit)
unfolding run
handshake_after_exit_hangs start_paused before after i next c here hand told gone =
    (last.here, ground (arith, last.unanswered))
  where
    s : System
    s = run false before (init start_paused)

    last : IsAbandoned i c (run false (of_caller i next ∷ after) s)
    last =
        run_induction false (IsAbandoned i c) Anything (λ t s _. step-IsAbandoned i c t s) after _
          (All-Anything after)
          (enters-IsAbandoned i next c s (run-Inv false start_paused before) here hand told gone)
