-- ===== src/ManagedThread/System.antt =====
-- A managed thread and its callers under every schedule: an execution is a list of turns, and a turn
-- of an agent that has to wait changes nothing.
use donkeycar_gt.Prelude.Relations.{All}
use donkeycar_gt.Prelude.{
  ℕ, ◌+◌, Bool, true, false, not, ◌&&◌, if◌then◌else◌, Option, none, some, List, [], ◌∷◌, ◌==◌,
}
use donkeycar_gt.ManagedThread.Worker.{WorkerPc, updating, Shared, new_thread, worker_step}
use donkeycar_gt.ManagedThread.Caller.{Call, CallerPc, idle, caller_step}

pub data Turn : Type 0 where
  of_worker : (answer : Bool) → Turn
  of_caller : (i : ℕ) (next : Call) → Turn

pub record System : Type 0 where
  pub shared : Shared
  pub open shared use *
  pub callers : ℕ → CallerPc

abbrev pub update {ℓ} : {X : Type ℓ} (places : ℕ → X) (i : ℕ) (x : X) (j : ℕ) → X
update places i x j = if i == j then x else places j

abbrev pub after_worker : System → Option Shared → System
after_worker s none = s
after_worker s (some m) = record s { shared = m }

abbrev pub after_caller : System → ℕ → Option (Shared × CallerPc) → System
after_caller s i none = s
after_caller s i (some (m, pc)) = record { shared = m; callers = update s.callers i pc }

-- `debug` says whether the build has assertions.
unfoldable pub step : Bool → Turn → System → System
step debug (of_worker answer) s = after_worker s (worker_step answer s.shared)
step debug (of_caller i next) s = after_caller s i (caller_step debug i next s.shared (s.callers i))

unfoldable pub run : Bool → List Turn → System → System
run debug [] s = s
run debug (t ∷ ts) s = run debug ts (step debug t s)

-- A new object, before anybody calls a method.
unfoldable pub init : Bool → System
init start_paused = record { shared = new_thread start_paused; callers = λ _. idle }

-- What every turn keeps, every execution keeps; `Q` is what the schedule has to respect.
pub run_induction {ℓ κ} :
    (debug : Bool) (P : System → Type ℓ) (Q : Turn → Type κ)
    → ((t : Turn) (s : System) → Q t → P s → P (step debug t s))
    → (ts : List Turn) (s : System) → All Q ts
    → P s
    → P (run debug ts s)
unfolding run
run_induction debug P Q keep [] s q h = h
run_induction debug P Q keep (t ∷ ts) s q h =
    run_induction debug P Q keep ts (step debug t s) q.1 (keep t s q.0 h)

abbrev pub is_updating : WorkerPc → Bool
is_updating updating = true
is_updating _ = false

-- Whether the turn between two states began a call of `update()`.
abbrev pub begins : System → System → ℕ
begins s t = if is_updating t.worker && not (is_updating s.worker) then 1 else 0

-- The calls of `update()` that begin in an execution.
unfoldable pub updates : Bool → List Turn → System → ℕ
updates debug [] s = 0
updates debug (t ∷ ts) s = begins s (step debug t s) + updates debug ts (step debug t s)

abbrev pub Anything : Turn → Type 0
Anything t = Unit {0}

pub All-Anything : (ts : List Turn) → All Anything ts
All-Anything [] = tt
All-Anything (t ∷ ts) = (tt, All-Anything ts)
