-- ===== src/Tests/Threads.antt =====
-- src/managed-thread.cpp: executions of one object with one or two callers.
use donkeycar_gt.Prelude.{
  ℕ, ◌≡◌, refl, ◌≢◌, ◌≤◌, ◌⊎◌, true, false, none, List, [], ◌∷◌, ◌++◌, arith,
}
use donkeycar_gt.TaskStatus.{running, paused, request_pause, init_status}
use donkeycar_gt.ManagedThread.Worker.{
  take_lock, check_exit, finished, absent, worker_step, new_thread,
}
use donkeycar_gt.ManagedThread.Caller.{
  Call, CallerPc, start, resume, suspend, graceful_exit, join, blocked, leaving, aborted,
  caller_step,
}
use donkeycar_gt.ManagedThread.System.{Turn, of_worker, of_caller, System, step, run, init, updates}
use donkeycar_gt.ManagedThread.Ownership.{one_manager, handshake_asserts, thread_holding}
use donkeycar_gt.ManagedThread.Quiet.{suspend_halts, in_round, resuming}
use donkeycar_gt.ManagedThread.Exit.{update_after_exit, exit_terminates}
use donkeycar_gt.ManagedThread.Handshake.{handshake_completes}
use donkeycar_gt.ManagedThread.Deadlock.{self_exit_deadlocks, resume_before_start_hangs}

abbrev w : Turn
w = of_worker false

abbrev c : Call → Turn
c next = of_caller 0 next

-- `start()`, from its call to its return.
abbrev started : List Turn
started = c start ∷ c start ∷ c start ∷ c start ∷ []

-- An object made running is started and its caller waits in `suspend`.
abbrev pausing : List Turn
pausing = started ++ c suspend ∷ c suspend ∷ c suspend ∷ []

abbrev pausing_state : System
pausing_state = run true pausing (init false)

pausing_lem : (pausing_state.callers 0 ≡ blocked suspend) × (pausing_state.status ≡ request_pause)
unfolding run step init new_thread init_status worker_step caller_step
pausing_lem = (refl, refl)

abbrev answered : List Turn
answered = pausing ++ w ∷ w ∷ w ∷ w ∷ w ∷ []

abbrev later : List Turn
later = w ∷ w ∷ c graceful_exit ∷ w ∷ []

nobody_resumes :
    (j : ℕ) → resuming ((step true (c join) (run true answered (init false))).callers j) ≡ false
unfolding run step init new_thread init_status worker_step caller_step
nobody_resumes j = ground arith

suspend_halts_example :
    let t = step true (c join) (run true answered (init false)) in
    (t.status ≡ paused) × (in_round t.worker ≡ false) × (updates true later t ≡ 0)
unfolding run step init new_thread init_status worker_step caller_step
suspend_halts_example =
    suspend_halts true false answered later 0 join refl refl nobody_resumes (ground arith)

one_manager_example : ◌≡◌ {A = ℕ} 0 0 × (thread_holding pausing_state.worker ≡ false)
unfolding run step init new_thread init_status worker_step caller_step
one_manager_example = one_manager true false pausing 0 0 refl refl

abbrev about_to_pause : List Turn
about_to_pause = started ++ c suspend ∷ c suspend ∷ []

handshake_asserts_example :
    (step true (c join) (run true about_to_pause (init false))).callers 0 ≢ aborted
unfolding run step init new_thread init_status worker_step caller_step
handshake_asserts_example =
    handshake_asserts true false about_to_pause 0 join suspend refl refl (λ e. cc)

abbrev seven : List Turn
seven = w ∷ w ∷ w ∷ w ∷ w ∷ w ∷ w ∷ []

handshake_completes_example :
    let u = step true (c join) (run true seven pausing_state) in
    (u.callers 0 ≡ leaving) × (u.status ≡ paused)
unfolding run step init new_thread init_status worker_step caller_step
handshake_completes_example =
    handshake_completes true false pausing seven 0 join suspend (ground arith) refl refl refl
      (ground arith) (omega arith)

-- The flag is set while the thread is past its last test of it.
abbrev late : System
late = record {
  shared = record {
    status = running;
    should_exit = true;
    joinable = true;
    owner = none;
    worker = check_exit;
  };
  callers = λ _. CallerPc.locking graceful_exit;
}

update_after_exit_example :
    (updates true seven late ≤ 1) × (check_exit ≢ check_exit → updates true seven late ≡ 0)
update_after_exit_example = update_after_exit true seven late refl (λ i. refl) (ground arith)

-- `graceful_exit` is called, and runs to its end.
abbrev calling : List Turn
calling = started ++ c graceful_exit ∷ []

abbrev exiting : List Turn
exiting = c graceful_exit ∷ c graceful_exit ∷ c graceful_exit ∷ c graceful_exit ∷ []

abbrev joining : List Turn
joining = c join ∷ c join ∷ c join ∷ w ∷ w ∷ w ∷ w ∷ []

exit_terminates_example :
    let t = run true joining (run true exiting (run true calling (init false))) in
    ((t.worker ≡ finished) ⊎ (t.worker ≡ absent))
    × (t.callers 0 ≡ blocked join
        → ((step true (c join) t).callers 0 ≡ leaving) × ((step true (c join) t).joinable ≡ false))
unfolding run step init new_thread init_status worker_step caller_step
exit_terminates_example =
    exit_terminates true false calling exiting joining 0 0 join refl refl (λ i. ground arith)
      (ground arith) refl (ground arith) (omega arith)

abbrev stuck : List Turn
stuck = started ++ c join ∷ c join ∷ c join ∷ w ∷ w ∷ []

self_exit_deadlocks_example :
    let t = run true (of_worker true ∷ w ∷ seven) (run true stuck (init false)) in
    (t.worker ≡ take_lock) × (t.callers 0 ≡ blocked join)
unfolding run step init new_thread init_status worker_step caller_step
self_exit_deadlocks_example = self_exit_deadlocks true false false stuck seven 0 join refl refl refl

resume_before_start_hangs_example :
    let t = run true (c join ∷ started) (run true (c resume ∷ c resume ∷ []) (init true)) in
    (t.callers 0 ≡ blocked resume) × (t.joinable ≡ false)
unfolding run step init new_thread init_status worker_step caller_step
resume_before_start_hangs_example =
    resume_before_start_hangs true true (c resume ∷ c resume ∷ []) started 0 join refl refl refl
