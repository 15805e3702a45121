-- ===== src/Part/Interrupted/Section.antt =====
-- src/vehicle.cpp, `signal_handler`, while `start` of a part is in the section of `resume_task_blocking` that holds the
-- mutex of the status (src/managed-task-status.cpp).
use donkeycar_gt.Prelude.{Option, Bool, false, none, if◌then◌else◌}
use donkeycar_gt.TaskStatus.{request_run}
use donkeycar_gt.ManagedThread.Worker.{Shared, enter_wait, asleep, worker_step}
use donkeycar_gt.ManagedThread.System.{after_worker}
use donkeycar_gt.Part.{Session}
use donkeycar_gt.Part.Interrupted.{Interrupted, interrupt}

-- The signal comes in the section, before `m_state = MTSSM_REQUEST_RUN` or, if `asked`, after it.
abbrev pub interrupt_section : Bool → Session → Interrupted
interrupt_section asked s = interrupt (record s {
  system = record s.system {
    shared = record s.system.shared { status = if asked then request_run else s.system.status };
  };
})

-- A step of the thread while the interrupted section has the mutex of the status, which `wait_to_run` locks when it
-- is called and when it wakes up. The handler itself locks it again, as it is recursive.
unfoldable pub locked_step : Shared → Option Shared
unfolding worker_step
locked_step m = elim m.worker [ enter_wait ↦ none | asleep ↦ none | _ ↦ worker_step false m ]

unfoldable pub locked_turn : Interrupted → Interrupted
locked_turn t = record t {
  session = record t.session {
    system = after_worker t.session.system (locked_step t.session.system.shared);
  };
}
