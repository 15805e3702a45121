-- ===== src/Part.antt =====
-- include/parts/part.hpp: `Part`, which is a `ManagedThread` made paused. `start` and `shutdown` are calls of
-- one owner, such as the vehicle, one after the other; between its turns the thread takes any number.
-- No part overrides `should_exit()`, so it answers false.
pub mod Start
pub mod Shutdown
pub mod Lifecycle
pub mod Fleet
pub mod Late
pub mod Interrupted
pub mod Destroy
use donkeycar_gt.Prelude.{ℕ, zero, suc, Bool, true, false, List, [], ◌∷◌, if◌then◌else◌}
use donkeycar_gt.Prelude.Rounds.{turns, rounds_of}
use donkeycar_gt.ManagedThread.Caller.{Call, CallerPc, idle, start, resume, graceful_exit, join}
use donkeycar_gt.ManagedThread.System.{Turn, of_worker, of_caller, System, step, init}

-- `Part::start` and `Part::shutdown`, as the calls of the managed thread that they make in turn.
abbrev pub start_calls : Bool → List Call
start_calls threaded = if threaded then start ∷ resume ∷ [] else []

abbrev pub shutdown_calls : Bool → List Call
shutdown_calls threaded = if threaded then graceful_exit ∷ join ∷ [] else []

-- `~ManagedThread`, whether the part is threaded or not.
abbrev pub dtor_calls : List Call
dtor_calls = graceful_exit ∷ join ∷ []

-- The object, and what the owner has still to call.
pub record Session : Type 0 where
  pub system : System
  pub calls : List Call

-- The constructor: "if threaded, start paused".
unfoldable pub new_part : List Call → Session
new_part calls = record { system = init true; calls = calls }

-- A turn of the owner, caller 0: when a call has returned it makes the next.
abbrev owner_turn_at : Bool → Session → CallerPc → List Call → Session
owner_turn_at debug s idle [] = s
owner_turn_at debug s idle (c ∷ cs) = record {
  system = step debug (of_caller 0 c) s.system;
  calls = cs;
}
owner_turn_at debug s pc cs = record s { system = step debug (of_caller 0 join) s.system }

unfoldable pub owner_turn : Bool → Session → Session
owner_turn debug s = owner_turn_at debug s (s.system.callers 0) s.calls

unfoldable pub thread_turn : Bool → Session → Session
thread_turn debug s = record s { system = step debug (of_worker false) s.system }

abbrev pub thread_turns : Bool → ℕ → Session → Session
thread_turns debug = turns (thread_turn debug)

-- A fair execution: in each round the thread takes a turn or more, and then the owner takes one.
abbrev pub rounds : Bool → List ℕ → Session → Session
rounds debug = rounds_of (thread_turn debug) (owner_turn debug)
