-- ===== src/Part/Interrupted/Deadlock.antt =====
-- src/vehicle.cpp, `signal_handler`, while `start` of a part is in the section of `resume_task_blocking`: neither the
-- handler nor the thread of the part can go on.
use donkeycar_gt.Prelude.{
  ℕ, ◌+◌, ◌-◌, ◌≤◌, ◌≡◌, refl, ap, Option, Bool, true, false, none, List, [], ◌∷◌, length,
  if◌then◌else◌, arith,
}
use donkeycar_gt.Prelude.Rounds.{rounds_of, IsProgress, rounds-left}
use donkeycar_gt.ManagedThread.Worker.{
  WorkerPc, Shared, exit_test, ask_exit, enter_wait, asleep, worker_step,
}
use donkeycar_gt.ManagedThread.Caller.{
  Call, CallerPc, idle, set_flag, locking, inside, blocked, leaving, resume, graceful_exit, join,
  caller_step,
}
use donkeycar_gt.ManagedThread.System.{after_worker}
use donkeycar_gt.ManagedThread.Ownership.{holding}
use donkeycar_gt.Part.{Session, start_calls, new_part, rounds}
use donkeycar_gt.Part.Start.{IsStarting, start-IsProgress, new_part-IsStarting}
use donkeycar_gt.Part.Interrupted.Section.{interrupt_section, locked_step, locked_turn}
use donkeycar_gt.Part.Interrupted.{
  Interrupted, handler_step, after_handler, main_turn_at, main_turn,
}

-- The thread has passed the test of its loop, and is not past `wait_to_run`.
abbrev pub is_bound_to_wait : WorkerPc → Bool
is_bound_to_wait exit_test = true
is_bound_to_wait ask_exit = true
is_bound_to_wait enter_wait = true
is_bound_to_wait asleep = true
is_bound_to_wait pc = false

abbrev fits_section : CallerPc → List Call → Bool
fits_section idle (graceful_exit ∷ join ∷ []) = true
fits_section set_flag (join ∷ []) = true
fits_section (locking graceful_exit) (join ∷ []) = true
fits_section (inside graceful_exit) (join ∷ []) = true
fits_section leaving (join ∷ []) = true
fits_section idle (join ∷ []) = true
fits_section (locking join) [] = true
fits_section (inside join) [] = true
fits_section (blocked join) [] = true
fits_section pc cs = false

record IsLocked (t : Interrupted) : Type 0 where
  outer : t.session.system.callers 0 ≡ inside resume
  joinable : t.session.system.joinable ≡ true
  worker : is_bound_to_wait t.session.system.worker ≡ true
  place : fits_section t.handler t.to_call ≡ true

-- The turns that the handler has before it waits, and those of the thread.
abbrev stage : CallerPc → List Call → ℕ
stage idle (graceful_exit ∷ cs) = 8
stage set_flag cs = 7
stage (locking graceful_exit) cs = 6
stage (inside graceful_exit) cs = 5
stage leaving cs = 4
stage idle (join ∷ cs) = 3
stage (locking join) cs = 2
stage (inside join) cs = 1
stage pc cs = 0

abbrev until_wait : WorkerPc → ℕ
until_wait exit_test = 2
until_wait ask_exit = 1
until_wait pc = 0

abbrev left : Interrupted → ℕ
left t = stage t.handler t.to_call + until_wait t.session.system.worker

abbrev comes_to_wait : CallerPc → WorkerPc → Bool
comes_to_wait (blocked c) exit_test = true
comes_to_wait (blocked c) ask_exit = true
comes_to_wait pc w = false

abbrev waits : Interrupted → Bool
waits t = comes_to_wait t.handler t.session.system.worker

locked_turn-IsLocked : (t : Interrupted) → IsLocked t → IsLocked (locked_turn t)
unfolding locked_turn locked_step worker_step
locked_turn-IsLocked t h = record {
  outer = ground arith;
  joinable = ground arith;
  worker = ground arith;
  place = ground arith;
}

main_turn-IsLocked : (debug : Bool) (t : Interrupted) → IsLocked t → IsLocked (main_turn debug t)
unfolding main_turn caller_step
main_turn-IsLocked debug t h = record {
  outer = ground arith;
  joinable = ground arith;
  worker = ground arith;
  place = ground arith;
}

locked_turn-left :
    (t : Interrupted) → IsLocked t → left (locked_turn t) ≤ left t - (if waits t then 1 else 0)
unfolding locked_turn locked_step worker_step
locked_turn-left t h = ground arith

main_turn-left :
    (debug : Bool) (t : Interrupted)
    → IsLocked t
    → left (main_turn debug t) ≤ left t - (if waits t then 0 else 1)
unfolding main_turn caller_step
main_turn-left debug t h = ground arith

locked_turn-waits : (t : Interrupted) → IsLocked t → waits t ≡ false → waits (locked_turn t) ≡ false
unfolding locked_turn locked_step worker_step
locked_turn-waits t h quiet = ground arith

IsLocked-IsProgress : (debug : Bool) → IsProgress locked_turn (main_turn debug) IsLocked left waits
IsLocked-IsProgress debug = record {
  thread_keeps = locked_turn-IsLocked;
  owner_keeps = main_turn-IsLocked debug;
  thread_left = locked_turn-left;
  owner_left = main_turn-left debug;
  goes_on = locked_turn-waits;
}

interrupt_section-IsLocked :
    (asked : Bool) (s : Session)
    → IsStarting s
    → s.system.callers 0 ≡ inside resume
    → is_bound_to_wait s.system.worker ≡ true
    → IsLocked (interrupt_section asked s)
interrupt_section-IsLocked asked s h here bound = record {
  outer = here;
  joinable = ground (arith, h.place);
  worker = bound;
  place = refl;
}

interrupt_section-left : (asked : Bool) (s : Session) → left (interrupt_section asked s) ≤ 10
interrupt_section-left asked s = ground arith

joins_at_end : (t : Interrupted) → IsLocked t → left t ≤ 0 → t.handler ≡ blocked join
joins_at_end t h done = ground arith

-- The thread waits for the mutex, and the handler for the thread.
no_step : (t : Interrupted) → IsLocked t → left t ≤ 0 → locked_step t.session.system.shared ≡ none
unfolding locked_step
no_step t h done = ground arith

no_handler_step :
    (debug held : Bool) (t : Interrupted)
    → IsLocked t
    → left t ≤ 0
    → handler_step debug held join t.session.system.shared t.handler ≡ none
unfolding caller_step
no_handler_step debug held t h done = ground arith

locked_turn-stuck : (t : Interrupted) → IsLocked t → left t ≤ 0 → locked_turn t ≡ t
unfolding locked_turn
locked_turn-stuck t h done =
    ap
      (λ (o : Option Shared). record t {
        session = record t.session { system = after_worker t.session.system o };
      })
      (no_step t h done)

main_turn_at-stuck :
    (debug : Bool) (t : Interrupted) (pc : CallerPc)
    → pc ≡ blocked join
    → handler_step debug
        (holding (t.session.system.callers 0))
        join
        t.session.system.shared
        t.handler
      ≡ none
    → main_turn_at debug t pc t.to_call ≡ t
main_turn_at-stuck debug t pc here e = rw here (ap (after_handler t t.to_call) e)

main_turn-stuck : (debug : Bool) (t : Interrupted) → IsLocked t → left t ≤ 0 → main_turn debug t ≡ t
unfolding main_turn
main_turn-stuck debug t h done =
    main_turn_at-stuck debug t t.handler (joins_at_end t h done) (no_handler_step debug _ t h done)

-- A signal comes while the thread of the vehicle, in the `resume` of a part that it starts, has the mutex of the
-- status, before it asks the thread of the part to run or after; and that thread, past the test of its
-- loop, is in `wait_to_run` or on its way to it. In any fair execution there is a deadlock within ten rounds: the handler
-- waits in `join` for the thread, and the thread for the mutex that the interrupted call holds, and no
-- turn of either changes anything. In each round the thread takes a turn or more, and the handler one.
pub section_deadlocks :
    (debug asked : Bool) (before after : List ℕ)
    → (rounds debug before (new_part (start_calls true))).system.callers 0 ≡ inside resume
    → is_bound_to_wait (rounds debug before (new_part (start_calls true))).system.worker ≡ true
    → 10 ≤ length after
    → let t =
        rounds_of locked_turn
          (main_turn debug)
          after
          (interrupt_section asked (rounds debug before (new_part (start_calls true)))) in
      (t.handler ≡ blocked join)
      × (t.session.system.callers 0 ≡ inside resume)
      × (t.session.system.joinable ≡ true)
      × (main_turn debug t ≡ t)
      × (locked_turn t ≡ t)
section_deadlocks debug asked before after here bound enough =
    let s = rounds debug before (new_part (start_calls true)) in
    let t = rounds_of locked_turn (main_turn debug) after (interrupt_section asked s) in
    let (starts, _) = rounds-left (start-IsProgress debug) before _ new_part-IsStarting in
    let (h, less) =
      rounds-left (IsLocked-IsProgress debug) after _
        (interrupt_section-IsLocked asked s starts here bound) in
    let done : left t ≤ 0 = omega (arith, less, interrupt_section-left asked s) in
    (
      joins_at_end t h done,
      h.outer,
      h.joinable,
      main_turn-stuck debug t h done,
      locked_turn-stuck t h done,
    )
