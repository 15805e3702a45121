-- ===== src/Tests/Signals.antt =====
-- src/vehicle.cpp, `signal_handler`, at some places of `start`.
use donkeycar_gt.Prelude.{ℕ, ◌≡◌, refl, Bool, true, false, [], replicate, arith}
use donkeycar_gt.Prelude.Rounds.{turns, rounds_of}
use donkeycar_gt.TaskStatus.{running, request_exit, init_status}
use donkeycar_gt.ManagedThread.Worker.{absent, worker_step, new_thread}
use donkeycar_gt.ManagedThread.Caller.{idle, inside, blocked, aborted, resume, join, caller_step}
use donkeycar_gt.ManagedThread.System.{step, init}
use donkeycar_gt.Part.{Session, start_calls, new_part, rounds, owner_turn, thread_turn}
use donkeycar_gt.Part.Interrupted.{Interrupted, interrupt, main_turn, part_turn}
use donkeycar_gt.Part.Late.{late_calls, late_start_stays}
use donkeycar_gt.Part.Interrupted.Hang.{interrupted_start_hangs}
use donkeycar_gt.Part.Interrupted.Section.{interrupt_section, locked_turn}
use donkeycar_gt.Part.Interrupted.Deadlock.{is_bound_to_wait, section_deadlocks}

-- After some rounds of `start`, in each of which the thread takes `k` turns more than one.
abbrev begun : ℕ → ℕ → Session
begun k n = rounds true (replicate n k) (new_part (start_calls true))

interrupted_start_hangs_example :
    let t =
      rounds_of
        (part_turn true)
        (main_turn true)
        (replicate 90 2)
        (interrupt (rounds true (replicate 7 4) (new_part (start_calls true)))) in
    (t.handler ≡ idle)
    × (t.to_call ≡ [])
    × (t.session.system.status ≡ request_exit)
    × (t.session.system.worker ≡ absent)
    × (t.session.system.callers 0 ≡ blocked resume)
unfolding rounds_of turns owner_turn thread_turn new_part step init new_thread init_status
    worker_step caller_step
interrupted_start_hangs_example =
    interrupted_start_hangs true (replicate 7 4) (replicate 90 2) refl (omega arith)

late_start_stays_example :
    let s = rounds true (replicate 160 1) (new_part late_calls) in
    (s.system.callers 0 ≡ aborted)
    × (s.system.status ≡ request_exit)
    × (s.system.joinable ≡ true)
    × (s.system.should_exit ≡ false)
    × (s.calls ≡ [])
late_start_stays_example = late_start_stays true (replicate 160 1) (omega arith)

-- Where `start` stands after sixty rounds with a signal.
abbrev ended : Bool → Session → Interrupted
ended debug s = rounds_of (part_turn debug) (main_turn debug) (replicate 60 1) (interrupt s)

before_thread : (ended false (begun 0 0)).session.system.callers 0 ≡ idle
unfolding rounds_of turns owner_turn thread_turn main_turn part_turn new_part step init new_thread
    init_status worker_step caller_step
before_thread = refl

left_running : (ended false (begun 0 0)).session.system.status ≡ running
unfolding rounds_of turns owner_turn thread_turn main_turn part_turn new_part step init new_thread
    init_status worker_step caller_step
left_running = refl

between_calls : (ended true (begun 0 4)).session.system.callers 0 ≡ aborted
unfolding rounds_of turns owner_turn thread_turn main_turn part_turn new_part step init new_thread
    init_status worker_step caller_step
between_calls = refl

in_wait : (ended true (begun 0 7)).session.system.callers 0 ≡ blocked resume
unfolding rounds_of turns owner_turn thread_turn main_turn part_turn new_part step init new_thread
    init_status worker_step caller_step
in_wait = refl

resuming :
    (rounds true (replicate 6 5) (new_part (start_calls true))).system.callers 0 ≡ inside resume
unfolding rounds_of turns owner_turn thread_turn new_part step init new_thread init_status
    worker_step caller_step
resuming = refl

waiting_to_run :
    is_bound_to_wait (rounds true (replicate 6 5) (new_part (start_calls true))).system.worker
    ≡ true
unfolding rounds_of turns owner_turn thread_turn new_part step init new_thread init_status
    worker_step caller_step
waiting_to_run = refl

section_deadlocks_example :
    let t =
      rounds_of locked_turn
        (main_turn true)
        (replicate 12 1)
        (interrupt_section true (rounds true (replicate 6 5) (new_part (start_calls true)))) in
    (t.handler ≡ blocked join)
    × (t.session.system.callers 0 ≡ inside resume)
    × (t.session.system.joinable ≡ true)
    × (main_turn true t ≡ t)
    × (locked_turn t ≡ t)
section_deadlocks_example =
    section_deadlocks true true (replicate 6 5) (replicate 12 1) resuming waiting_to_run
      (omega arith)
