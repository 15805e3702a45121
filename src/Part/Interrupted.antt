-- ===== src/Part/Interrupted.antt =====
-- src/vehicle.cpp, `signal_handler`, on the thread that starts a part (include/parts/part.hpp): the handler makes
-- the calls of `shutdown` before the call that it interrupts goes on.
pub mod Hang
pub mod Handling
pub mod Aftermath
pub mod Outcome
pub mod Entry
pub mod Section
pub mod Deadlock
use donkeycar_gt.Prelude.{ℕ, Bool, true, Option, none, some, List, [], ◌∷◌, if◌then◌else◌}
use donkeycar_gt.ManagedThread.Worker.{Shared}
use donkeycar_gt.ManagedThread.Caller.{
  Call, CallerPc, idle, locking, inside, leaving, join, caller_step,
}
use donkeycar_gt.ManagedThread.Ownership.{holding}
use donkeycar_gt.Part.{Session, shutdown_calls, owner_turn, thread_turn}

pub record Interrupted : Type 0 where
  pub session : Session  -- with the call that the signal came upon
  pub handler : CallerPc
  pub to_call : List Call  -- by the handler

-- The handler makes its first call.
abbrev pub interrupt : Session → Interrupted
interrupt s = record { session = s; handler = idle; to_call = shutdown_calls true }

-- A step of a call of the handler. `m_mutex_pause_resume` is recursive: if the interrupted call holds it, as `held`
-- says, the handler takes it without a wait, and the end of its `Lock` leaves it held.
abbrev handler_step : Bool → Bool → Call → Shared → CallerPc → Option (Shared × CallerPc)
handler_step debug held next m (locking c) =
    if held then some (m, inside c) else caller_step debug 0 next m (locking c)
handler_step debug held next m leaving =
    if held then some (m, idle) else caller_step debug 0 next m leaving
handler_step debug held next m pc = caller_step debug 0 next m pc

abbrev pub after_handler : Interrupted → List Call → Option (Shared × CallerPc) → Interrupted
after_handler t cs none = t
after_handler t cs (some (m, pc)) = record {
  session = record t.session { system = record t.session.system { shared = m } };
  handler = pc;
  to_call = cs;
}

abbrev handler_moves : Bool → Interrupted → Call → List Call → Interrupted
handler_moves debug t next cs = after_handler t cs (
    handler_step debug (holding (t.session.system.callers 0)) next t.session.system.shared
      t.handler)

abbrev pub main_turn_at : Bool → Interrupted → CallerPc → List Call → Interrupted
main_turn_at debug t idle [] = record t { session = owner_turn debug t.session }
main_turn_at debug t idle (c ∷ cs) = handler_moves debug t c cs
main_turn_at debug t pc cs = handler_moves debug t join cs

-- A turn of the thread that the signal came upon: the interrupted call goes on when the handler has returned.
unfoldable pub main_turn : Bool → Interrupted → Interrupted
main_turn debug t = main_turn_at debug t t.handler t.to_call

-- A turn of the thread of the part.
unfoldable pub part_turn : Bool → Interrupted → Interrupted
part_turn debug t = record t { session = thread_turn debug t.session }
