-- ===== src/Part/Interrupted/Hang.antt =====
-- src/vehicle.cpp, `signal_handler`, while `start` of a part waits in `resume_task_blocking`
-- (src/managed-task-status.cpp).
use donkeycar_gt.Prelude.{ℕ, ◌≤◌, ◌≡◌, refl, Bool, true, List, [], length, arith}
use donkeycar_gt.Prelude.Rounds.{rounds_of, rounds-left}
use donkeycar_gt.TaskStatus.{request_exit}
use donkeycar_gt.ManagedThread.Worker.{absent}
use donkeycar_gt.ManagedThread.Caller.{idle, blocked, resume}
use donkeycar_gt.ManagedThread.Ownership.{holding}
use donkeycar_gt.Part.{Session, start_calls, new_part, rounds}
use donkeycar_gt.Part.Start.{start-IsProgress, new_part-IsStarting}
use donkeycar_gt.Part.Interrupted.{interrupt, main_turn, part_turn}
use donkeycar_gt.Part.Interrupted.Handling.{returned-idle}
use donkeycar_gt.Part.Interrupted.Aftermath.{in_resume, moment, IsGone, left, IsGone-IsProgress}
use donkeycar_gt.Part.Interrupted.Entry.{interrupt-IsHandled, enter-IsGone}
use donkeycar_gt.Part.Interrupted.Outcome.{interrupted_done}

waits-in_resume :
    (s : Session)
    → s.system.callers 0 ≡ blocked resume
    → moment (s.system.callers 0) s.calls ≡ in_resume
waits-in_resume s h = ground arith

-- There is nothing left to do in that wait.
in_resume-left : (debug : Bool) (s : Session) → IsGone debug in_resume s → left s ≤ 0
in_resume-left debug s h = ground arith

in_resume-stands :
    (debug : Bool) (s : Session)
    → IsGone debug in_resume s
    → (s.system.callers 0 ≡ blocked resume) × (s.system.status ≡ request_exit)
in_resume-stands debug s h = (ground arith, ground arith)

-- A signal comes while the thread of the vehicle waits in the `resume` of a part that it starts, inside the wait of
-- the event, which does not hold the mutex of the status, and the handler shuts this part down. In any fair execution the handler has returned after 87 rounds, and the part
-- has no thread any more; `start` waits for the answer of that thread then, and after any number of further
-- rounds. In each round the thread of the part takes a turn or more, and that of the vehicle one.
pub interrupted_start_hangs :
    (debug : Bool) (before after : List ℕ)
    → (rounds debug before (new_part (start_calls true))).system.callers 0 ≡ blocked resume
    → 87 ≤ length after
    → let t =
        rounds_of
          (part_turn debug)
          (main_turn debug)
          after
          (interrupt (rounds debug before (new_part (start_calls true)))) in
      (t.handler ≡ idle)
      × (t.to_call ≡ [])
      × (t.session.system.status ≡ request_exit)
      × (t.session.system.worker ≡ absent)
      × (t.session.system.callers 0 ≡ blocked resume)
interrupted_start_hangs debug before after waits enough =
    let s = rounds debug before (new_part (start_calls true)) in
    let t = rounds_of (part_turn debug) (main_turn debug) after (interrupt s) in
    let (starts, _) = rounds-left (start-IsProgress debug) before _ new_part-IsStarting in
    let at_moment = waits-in_resume s waits in
    let (over, gone, _) =
      interrupted_done debug s.system.joinable (holding (s.system.callers 0)) (s.system.callers 0)
        s.calls (IsGone-IsProgress debug in_resume) 0 (in_resume-left debug)
        (λ t here rest g over.
          enter-IsGone debug s starts t here rest g over in_resume at_moment (λ e. cc))
        after (interrupt s) refl (interrupt-IsHandled s starts) refl refl enough in
    let (idle_now, none_to_call) = returned-idle t over in
    let (stands, exits) = in_resume-stands debug t.session gone in
    (idle_now, none_to_call, exits, gone.thread, stands)
