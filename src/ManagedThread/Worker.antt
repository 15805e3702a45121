-- ===== src/ManagedThread/Worker.antt =====
-- src/managed-thread.cpp, `task`: the loop that the managed thread runs, with `graceful_exit` as the
-- thread itself calls it.
use donkeycar_gt.Prelude.{ℕ, Bool, true, false, not, Option, none, some, if◌then◌else◌}
use donkeycar_gt.TaskStatus.{
  MtsState, Progress, returned, waiting, init_status, wait_to_run, wait_wake,
  set_exit_flag_blocking,
}

pub data Agent : Type 0 where
  worker : Agent
  caller : ℕ → Agent

-- Where the thread stands: the shared access that it makes next.
pub data WorkerPc : Type 0 where
  absent : WorkerPc  -- no thread, or one that was joined
  loop_test : WorkerPc  -- `while (!m_should_exit)`
  exit_test : WorkerPc  -- `if (!m_should_exit &&`
  ask_exit : WorkerPc  -- `should_exit())`
  set_flag : WorkerPc  -- `graceful_exit`: m_should_exit = true
  take_lock : WorkerPc  -- its `Lock lock(m_mutex_pause_resume)`
  flag_status : WorkerPc  -- its `set_exit_flag_blocking`
  drop_lock : WorkerPc  -- the end of the `Lock`
  enter_wait : WorkerPc  -- `m_task_status.wait_to_run()`
  asleep : WorkerPc  -- in its `m_event.wait`
  check_flag : (should_run : Bool) → WorkerPc  -- `should_run && !m_should_exit`
  check_exit : WorkerPc  -- `&& !should_exit()`
  updating : WorkerPc  -- in `update()`
  finished : WorkerPc  -- `task` has returned

pub record Shared : Type 0 where
  pub status : MtsState  -- m_task_status
  pub should_exit : Bool  -- m_should_exit
  pub joinable : Bool  -- m_thread.joinable()
  pub owner : Option Agent  -- of m_mutex_pause_resume
  pub worker : WorkerPc

-- The constructor.
unfoldable pub new_thread : Bool → Shared
new_thread start_paused = record {
  status = init_status (not start_paused);
  should_exit = false;
  joinable = false;
  owner = none;
  worker = absent;
}

-- Where the thread goes on when a section of `wait_to_run` is over.
abbrev after_wait : Shared → MtsState × Progress Bool → Shared
after_wait m (s, returned b) = record m { status = s; worker = check_flag b }
after_wait m (s, waiting) = record m { status = s; worker = asleep }

-- `answer` is what the virtual `should_exit()` returns if this step calls it. `none`: the thread waits
-- for the mutex, or there is none that runs.
worker_step_at : Bool → Shared → WorkerPc → Option Shared
unfolding wait_to_run wait_wake set_exit_flag_blocking
worker_step_at answer m absent = none
worker_step_at answer m loop_test =
    some (record m { worker = if m.should_exit then finished else exit_test })
worker_step_at answer m exit_test =
    some (record m { worker = if m.should_exit then enter_wait else ask_exit })
worker_step_at answer m ask_exit =
    some (record m { worker = if answer then set_flag else enter_wait })
worker_step_at answer m set_flag = some (record m { should_exit = true; worker = take_lock })
worker_step_at answer m take_lock = elim m.owner [
  | none ↦ some (record m { owner = some worker; worker = flag_status })
  | some other ↦ none
]
worker_step_at answer m flag_status =
    some (record m { status = set_exit_flag_blocking m.status; worker = drop_lock })
worker_step_at answer m drop_lock = some (record m { owner = none; worker = enter_wait })
worker_step_at answer m enter_wait = some (after_wait m (wait_to_run m.status))
worker_step_at answer m asleep = some (after_wait m (wait_wake m.status))
worker_step_at answer m (check_flag false) = some (record m { worker = loop_test })
worker_step_at answer m (check_flag true) =
    some (record m { worker = if m.should_exit then loop_test else check_exit })
worker_step_at answer m check_exit =
    some (record m { worker = if answer then loop_test else updating })
worker_step_at answer m updating = some (record m { worker = loop_test })
worker_step_at answer m finished = none

unfoldable pub worker_step : Bool → Shared → Option Shared
unfolding worker_step_at
worker_step answer m = worker_step_at answer m m.worker
