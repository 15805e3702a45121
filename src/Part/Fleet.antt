-- ===== src/Part/Fleet.antt =====
-- src/vehicle.cpp, `start_blocking` and `stop`, over parts with threads: the loops that start the parts and
-- shut them down, among the threads of all the parts. The parts share nothing here but the thread of the
-- vehicle, which makes their calls: `Vehicle` has the frames.
pub mod Progress
pub mod Destruction
pub mod Lifecycle
use donkeycar_gt.Prelude.{ℕ, zero, suc, Bool, true, false, List, [], ◌∷◌, if◌then◌else◌}
use donkeycar_gt.ManagedThread.Caller.{Call, CallerPc, idle}
use donkeycar_gt.Part.{
  Session, new_part, start_calls, shutdown_calls, dtor_calls, owner_turn, thread_turns,
}

-- A part and its `m_threaded`.
abbrev pub Member : Type 0
Member = Bool × Session

abbrev pub is_returned : CallerPc → List Call → Bool
is_returned idle [] = true
is_returned pc cs = false

-- The call of the vehicle for this part has returned, or is not due.
abbrev pub at_rest : Session → Bool
at_rest s = is_returned (s.system.callers 0) s.calls

-- A turn of the vehicle, in `for (const PartPtr& part : m_parts)`: the call for one part returns before the loop
-- comes to the next.
unfoldable pub fleet_turn : Bool → List Member → List Member
fleet_turn debug [] = []
fleet_turn debug ((threaded, s) ∷ ps) =
    let later = fleet_turn debug ps in
    if at_rest s then (threaded, s) ∷ later else (threaded, owner_turn debug s) ∷ ps

-- The thread of part `i` takes `1 + ks i` turns; those of different parts do not meet.
unfoldable pub threads_turn : Bool → (ℕ → ℕ) → List Member → List Member
threads_turn debug ks [] = []
threads_turn debug ks ((threaded, s) ∷ ps) =
    (threaded, thread_turns debug (suc (ks zero)) s) ∷ threads_turn debug (λ i. ks (suc i)) ps

-- A fair execution, in rounds: each thread takes a turn or more, and then the vehicle takes one.
unfoldable pub fleet_rounds : Bool → List (ℕ → ℕ) → List Member → List Member
fleet_rounds debug [] ps = ps
fleet_rounds debug (ks ∷ rounds) ps =
    fleet_rounds debug rounds (fleet_turn debug (threads_turn debug ks ps))

-- New parts, which `start_blocking` begins to start.
unfoldable pub start_all : List Bool → List Member
start_all [] = []
start_all (threaded ∷ flags) = (threaded, new_part (start_calls threaded)) ∷ start_all flags

-- `stop` begins to shut them down.
unfoldable pub stop_all : List Member → List Member
stop_all [] = []
stop_all ((threaded, s) ∷ ps) =
    (threaded, record s { calls = shutdown_calls threaded }) ∷ stop_all ps

-- They are destroyed: `~ManagedThread` makes its calls for a part with a thread and for one without.
unfoldable pub destroy_all : List Member → List Member
destroy_all [] = []
destroy_all ((threaded, s) ∷ ps) = (true, record s { calls = dtor_calls }) ∷ destroy_all ps

abbrev pub flags_of : List Member → List Bool
flags_of [] = []
flags_of ((threaded, s) ∷ ps) = threaded ∷ flags_of ps
