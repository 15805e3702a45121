-- ===== src/ManagedThread/Caller.antt =====
-- src/managed-thread.cpp: `start`, `resume`, `suspend`, `graceful_exit` and `join`, as a thread calls
-- them that is not the managed one.
use donkeycar_gt.Prelude.{ℕ, Bool, true, false, Option, none, some, if◌then◌else◌}
use donkeycar_gt.Run.{Run, ok, fault}
use donkeycar_gt.TaskStatus.{
  MtsState, Progress, returned, waiting, pause_task_blocking, pause_loop, resume_task_blocking,
  resume_loop, set_exit_flag_blocking,
}
use donkeycar_gt.ManagedThread.Worker.{caller, Shared, absent, loop_test, finished}

pub data Call : Type 0 where
  start resume suspend graceful_exit join : Call

pub data CallerPc : Type 0 where
  idle : CallerPc
  set_flag : CallerPc  -- `graceful_exit`: m_should_exit = true, before the lock
  locking : Call → CallerPc  -- `Lock lock(m_mutex_pause_resume)`
  inside : Call → CallerPc  -- the body, with the mutex held
  blocked : Call → CallerPc  -- in the wait of `resume` or `suspend`, or in `m_thread.join()`
  leaving : CallerPc  -- the end of the `Lock`
  aborted : CallerPc  -- an assertion failed, or `std::terminate` was called

abbrev begin : Call → CallerPc
begin graceful_exit = set_flag
begin c = locking c

-- Where a caller goes on when a section of a method of the task status is over.
abbrev after_section : Call → Shared → Run (MtsState × Progress (Unit {0})) → Shared × CallerPc
after_section c m (fault e) = (m, aborted)
after_section c m (ok (s, returned _)) = (record m { status = s }, leaving)
after_section c m (ok (s, waiting)) = (record m { status = s }, blocked c)

-- A thread is never assigned to a `std::thread` that is still joinable: the assertion is against it,
-- and without assertions the assignment calls `std::terminate`.
-- The reset of the flag and the thread that is made after it are one step: what another caller does between the two it
-- may as well do after them, before the first step of the new thread.
start_body : Shared → Shared × CallerPc
start_body m =
    let reset = record m { should_exit = false } in
    if m.joinable
    then (reset, aborted)
    else (record reset { joinable = true; worker = loop_test }, leaving)

call_body : Bool → Call → Shared → Shared × CallerPc
unfolding start_body pause_task_blocking resume_task_blocking set_exit_flag_blocking
call_body debug start m = start_body m
call_body debug resume m = after_section resume m (resume_task_blocking debug m.status)
call_body debug suspend m = after_section suspend m (pause_task_blocking debug m.status)
call_body debug graceful_exit m = (record m { status = set_exit_flag_blocking m.status }, leaving)
call_body debug join m = if m.joinable then (m, blocked join) else (m, leaving)

-- `m_thread.join()` returns when `task` has returned.
join_wait : Shared → Option (Shared × CallerPc)
join_wait m = elim m.worker [
  | finished ↦ some (record m { joinable = false; worker = absent }, leaving)
  | _ ↦ none
]

-- A blocked call looks again.
call_wake : Call → Shared → Option (Shared × CallerPc)
unfolding pause_loop resume_loop join_wait
call_wake resume m = some (after_section resume m (ok (m.status, resume_loop m.status)))
call_wake suspend m = some (after_section suspend m (ok (m.status, pause_loop m.status)))
call_wake join m = join_wait m
call_wake c m = none

-- One step of caller `i`, which calls `next` if it is idle. `none`: it has to wait.
unfoldable pub caller_step : Bool → ℕ → Call → Shared → CallerPc → Option (Shared × CallerPc)
unfolding call_body call_wake
caller_step debug i next m idle = some (m, begin next)
caller_step debug i next m set_flag = some (record m { should_exit = true }, locking graceful_exit)
caller_step debug i next m (locking c) = elim m.owner [
  | none ↦ some (record m { owner = some (caller i) }, inside c)
  | some other ↦ none
]
caller_step debug i next m (inside c) = some (call_body debug c m)
caller_step debug i next m (blocked c) = call_wake c m
caller_step debug i next m leaving = some (record m { owner = none }, idle)
caller_step debug i next m aborted = none
