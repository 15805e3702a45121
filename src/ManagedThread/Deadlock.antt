-- ===== src/ManagedThread/Deadlock.antt =====
-- Where the protocol hangs: each caller holds `m_mutex_pause_resume` while it waits for the thread.
use donkeycar_gt.Prelude.{ℕ, ◌≡◌, Bool, true, false, not, List, ◌∷◌, arith}
use donkeycar_gt.TaskStatus.{MtsState, request_run}
use donkeycar_gt.ManagedThread.Worker.{absent, ask_exit, take_lock, worker_step}
use donkeycar_gt.ManagedThread.Caller.{Call, resume, suspend, join, inside, blocked, caller_step}
use donkeycar_gt.ManagedThread.System.{
  Turn, of_worker, of_caller, System, step, run, init, run_induction, Anything, All-Anything,
}
use donkeycar_gt.ManagedThread.Ownership.{Inv, run-Inv, step-Inv, calm}

-- A call that only the thread can let go on: `join`, or `suspend` and `resume` that are not answered.
abbrev pub depends : Call → MtsState → Bool
depends join s = true
depends suspend s = not (calm s)
depends resume s = not (calm s)
depends _ s = false

record IsDeadlocked (i : ℕ) (c : Call) (s : System) : Type 0 where
  inv : Inv s
  thread : s.worker ≡ take_lock
  here : s.callers i ≡ blocked c
  unanswered : depends c s.status ≡ true

step-IsDeadlocked :
    (debug : Bool) (i : ℕ) (c : Call) (t : Turn) (s : System)
    → IsDeadlocked i c s
    → IsDeadlocked i c (step debug t s)
unfolding step worker_step caller_step
step-IsDeadlocked debug i c (of_worker answer) s h = record {
  inv = step-Inv debug (of_worker answer) s h.inv;
  thread = ground (arith, h.inv.owns i);
  here = ground (arith, h.here);
  unanswered = ground (arith, h.inv.owns i);
}
step-IsDeadlocked debug i c (of_caller j next) s h = record {
  inv = step-Inv debug (of_caller j next) s h.inv;
  thread = ground (arith, h.here, h.inv.owns i, h.inv.owns j);
  here = ground (arith, h.here, h.inv.owns i, h.inv.owns j);
  unanswered = ground (arith, h.here, h.inv.owns i, h.inv.owns j);
}

enters-IsDeadlocked :
    (debug any : Bool) (i : ℕ) (c : Call) (s : System)
    → Inv s
    → s.worker ≡ ask_exit
    → s.callers i ≡ blocked c
    → depends c s.status ≡ true
    → IsDeadlocked i c (step debug (of_worker any) (step debug (of_worker true) s))
unfolding step worker_step
enters-IsDeadlocked debug any i c s v asks here waits = record {
  inv = step-Inv debug (of_worker any) _ (step-Inv debug (of_worker true) s v);
  thread = ground arith;
  here = ground arith;
  unanswered = ground arith;
}

-- If the virtual `should_exit()` answers true while a caller waits in `join`, or in a `suspend` or
-- `resume` that is not answered yet, the object hangs: two turns later the thread waits for the mutex
-- that this caller holds, and neither ever goes on, in any schedule.
pub self_exit_deadlocks :
    (debug start_paused any : Bool) (before after : List Turn) (i : ℕ) (c : Call)
    → let s = run debug before (init start_paused) in
      let t = run debug (of_worker true ∷ of_worker any ∷ after) s in
      s.worker ≡ ask_exit
      → s.callers i ≡ blocked c
      → depends c s.status ≡ true
      → (t.worker ≡ take_lock) × (t.callers i ≡ blocked c)
unfolding run
self_exit_deadlocks debug start_paused any before after i c asks here waits =
    (last.thread, last.here)
  where
    last :
        IsDeadlocked i c (
          run debug (of_worker true ∷ of_worker any ∷ after) (run debug before (init start_paused)))
    last =
        run_induction debug (IsDeadlocked i c) Anything (λ t s _. step-IsDeadlocked debug i c t s)
          after _ (All-Anything after)
          (enters-IsDeadlocked debug any i c _ (run-Inv debug start_paused before) asks here waits)

record IsUnstarted (i : ℕ) (s : System) : Type 0 where
  inv : Inv s
  thread : s.worker ≡ absent
  here : s.callers i ≡ blocked resume
  unanswered : s.status ≡ request_run

step-IsUnstarted :
    (debug : Bool) (i : ℕ) (t : Turn) (s : System)
    → IsUnstarted i s
    → IsUnstarted i (step debug t s)
unfolding step worker_step caller_step
step-IsUnstarted debug i (of_worker answer) s h = record {
  inv = step-Inv debug (of_worker answer) s h.inv;
  thread = ground arith;
  here = ground (arith, h.here);
  unanswered = ground arith;
}
step-IsUnstarted debug i (of_caller j next) s h = record {
  inv = step-Inv debug (of_caller j next) s h.inv;
  thread = ground (arith, h.here, h.inv.owns i, h.inv.owns j);
  here = ground (arith, h.here, h.inv.owns i, h.inv.owns j);
  unanswered = ground (arith, h.here, h.inv.owns i, h.inv.owns j);
}

resume-IsUnstarted :
    (debug : Bool) (i : ℕ) (next : Call) (s : System)
    → Inv s
    → s.callers i ≡ inside resume
    → s.status ≡ MtsState.paused
    → s.joinable ≡ false
    → IsUnstarted i (step debug (of_caller i next) s)
unfolding step caller_step
resume-IsUnstarted debug i next s v here waits none_yet = record {
  inv = step-Inv debug (of_caller i next) s v;
  thread = ground (arith, v.thread);
  here = ground arith;
  unanswered = ground arith;
}

-- A `resume` of an object that was made paused and has no thread, once it has the mutex, never
-- returns: it holds the mutex that `start` needs, so nobody can start the thread it waits for.
pub resume_before_start_hangs :
    (debug start_paused : Bool) (before after : List Turn) (i : ℕ) (next : Call)
    → let s = run debug before (init start_paused) in
      let t = run debug (of_caller i next ∷ after) s in
      s.callers i ≡ inside resume
      → s.status ≡ MtsState.paused
      → s.joinable ≡ false
      → (t.callers i ≡ blocked resume) × (t.joinable ≡ false)
unfolding run
resume_before_start_hangs debug start_paused before after i next here waits none_yet =
    (last.here, ground (arith, last.inv.thread, last.thread))
  where
    s : System
    s = run debug before (init start_paused)

    last : IsUnstarted i (run debug (of_caller i next ∷ after) s)
    last =
        run_induction debug (IsUnstarted i) Anything (λ t s _. step-IsUnstarted debug i t s) after _
          (All-Anything after)
          (resume-IsUnstarted debug i next s (run-Inv debug start_paused before) here waits
            none_yet)
