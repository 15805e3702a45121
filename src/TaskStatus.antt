-- ===== src/TaskStatus.antt =====
-- include/managed-task-status.h and src/managed-task-status.cpp: the state that a managed thread shares
-- with whoever manages it.
-- Every method holds `m_mutex` from its first line to its return, but for the time it spends in
-- `m_event.wait`. So a method is a run of sections, each of which takes the value of `m_state` that it
-- finds to the value that it leaves: the section from the call on, and the section after each wake-up.
-- All waits are timed, so a wake-up may come at any time, also with no signal: `trigger_all` then
-- changes nothing but when it comes, and has no part in the sections.
pub mod Threads
use donkeycar_gt.Prelude.{ℕ, Bool, true, false, not, ◌==◌, if◌then◌else◌}
use donkeycar_gt.Run.{Run, ok, assert, ◌>>◌}

-- `ManagedTaskStatusStateMachine`
pub data MtsState : Type 0 where
  running request_pause paused request_run request_exit : MtsState

-- The values of the enumeration.
abbrev pub value : MtsState → ℕ
value running = 0
value request_pause = 1
value paused = 2
value request_run = 3
value request_exit = 4

abbrev pub same : MtsState → MtsState → Bool
same s t = value s == value t

-- How a section ends: the method returns, or it goes to sleep in `m_event.wait`.
pub data Progress {ℓ} (A : Type ℓ) : Type ℓ where
  returned : A → Progress A
  waiting : Progress A

-- The constructor's initial state.
unfoldable pub init_status : Bool → MtsState
init_status starts_running = if starts_running then running else paused

-- `while (m_state != MTSSM_PAUSED) m_event.wait(...)`, up to the next wait.
unfoldable pub pause_loop : MtsState → Progress (Unit {0})
pause_loop s = if same s paused then returned tt else waiting

-- `pause_task_blocking` from the call on; `debug` says whether the build has assertions. After a
-- wake-up it goes on with `pause_loop`.
unfoldable pub pause_task_blocking : Bool → MtsState → Run (MtsState × Progress (Unit {0}))
unfolding pause_loop
pause_task_blocking debug s = do
  assert debug (not (same s request_run))
  assert debug (not (same s request_exit))
  if same s paused then ok (s, returned tt) else ok (request_pause, pause_loop request_pause)

unfoldable pub resume_loop : MtsState → Progress (Unit {0})
resume_loop s = if same s running then returned tt else waiting

unfoldable pub resume_task_blocking : Bool → MtsState → Run (MtsState × Progress (Unit {0}))
unfolding resume_loop
resume_task_blocking debug s = do
  assert debug (not (same s request_pause))
  assert debug (not (same s request_exit))
  if same s running then ok (s, returned tt) else ok (request_run, resume_loop request_run)

-- The loop of `wait_to_run` and what follows it, up to the next wait.
pub wait_loop : MtsState → MtsState × Progress Bool
wait_loop s = if same s request_run then (running, returned true) else (s, waiting)

-- The section of `wait_to_run` after a wake-up.
unfoldable pub wait_wake : MtsState → MtsState × Progress Bool
unfolding wait_loop
wait_wake s = if same s request_exit then (s, returned false) else wait_loop s

-- `wait_to_run` from the call on.
unfoldable pub wait_to_run : MtsState → MtsState × Progress Bool
unfolding wait_loop
wait_to_run s =
    if same s running
    then (s, returned true)
    else if same s request_exit
    then (s, returned false)
    else if same s request_pause
    then (paused, returned false)
    else wait_loop s

unfoldable pub set_exit_flag_blocking : MtsState → MtsState
set_exit_flag_blocking s = request_exit

unfoldable pub request_pause? : MtsState → Bool
request_pause? s = same s request_pause

unfoldable pub is_running : MtsState → Bool
is_running s = same s running

unfoldable pub is_paused : MtsState → Bool
is_paused s = same s paused
