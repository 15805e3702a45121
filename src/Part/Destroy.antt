-- ===== src/Part/Destroy.antt =====
-- src/managed-thread.cpp, the destructor, of a part that has no thread: one that was never started, has none by
-- itself, or was shut down. That of a part with a thread makes the calls of `shutdown`.
use donkeycar_gt.Prelude.{
  ℕ, ◌-◌, ◌≤◌, ◌≡◌, refl, Bool, true, false, none, some, List, [], ◌∷◌, if◌then◌else◌, arith,
}
use donkeycar_gt.ManagedThread.Worker.{caller, absent, worker_step}
use donkeycar_gt.ManagedThread.Caller.{
  Call, CallerPc, idle, set_flag, locking, inside, leaving, graceful_exit, join, caller_step,
}
use donkeycar_gt.ManagedThread.System.{step}
use donkeycar_gt.ManagedThread.Ownership.{holding}
use donkeycar_gt.Part.{Session, owner_turn, thread_turn}
use donkeycar_gt.Part.Fleet.{at_rest}
use donkeycar_gt.Prelude.Rounds.{IsProgress}

-- The turns that the owner has before it.
abbrev stage : CallerPc → List Call → ℕ
stage idle (graceful_exit ∷ cs) = 9
stage set_flag cs = 8
stage (locking graceful_exit) cs = 7
stage (inside graceful_exit) cs = 6
stage leaving (join ∷ cs) = 5
stage idle (join ∷ cs) = 4
stage (locking join) cs = 3
stage (inside join) cs = 2
stage leaving [] = 1
stage pc cs = 0

-- Where the owner may be, with what calls to come.
abbrev fits_destroy : CallerPc → List Call → Bool
fits_destroy idle (graceful_exit ∷ join ∷ []) = true
fits_destroy set_flag (join ∷ []) = true
fits_destroy (locking graceful_exit) (join ∷ []) = true
fits_destroy (inside graceful_exit) (join ∷ []) = true
fits_destroy leaving (join ∷ []) = true
fits_destroy idle (join ∷ []) = true
fits_destroy (locking join) [] = true
fits_destroy (inside join) [] = true
fits_destroy leaving [] = true
fits_destroy idle [] = true
fits_destroy pc cs = false

pub record IsGoing (s : Session) : Type 0 where
  pub alone : s.system.owner ≡ (if holding (s.system.callers 0) then some (caller 0) else none)
  pub thread : s.system.worker ≡ absent
  pub unjoinable : s.system.joinable ≡ false
  pub place : fits_destroy (s.system.callers 0) s.calls ≡ true

abbrev pub left : Session → ℕ
left s = stage (s.system.callers 0) s.calls

thread_turn-IsGoing : (debug : Bool) (s : Session) → IsGoing s → IsGoing (thread_turn debug s)
unfolding thread_turn step worker_step
thread_turn-IsGoing debug s h = record {
  alone = ground arith;
  thread = ground arith;
  unjoinable = ground arith;
  place = ground arith;
}

owner_turn-IsGoing : (debug : Bool) (s : Session) → IsGoing s → IsGoing (owner_turn debug s)
unfolding owner_turn step caller_step
owner_turn-IsGoing debug s h = record {
  alone = ground arith;
  thread = ground arith;
  unjoinable = ground arith;
  place = ground arith;
}

thread_turn-left :
    (debug : Bool) (s : Session) → IsGoing s → left (thread_turn debug s) ≤ left s - 0
unfolding thread_turn step worker_step
thread_turn-left debug s h = ground arith

owner_turn-left : (debug : Bool) (s : Session) → IsGoing s → left (owner_turn debug s) ≤ left s - 1
unfolding owner_turn step caller_step
owner_turn-left debug s h = ground arith

abbrev pub never : Session → Bool
never s = false

pub IsGoing-IsProgress :
    (debug : Bool) → IsProgress (thread_turn debug) (owner_turn debug) IsGoing left never
IsGoing-IsProgress debug = record {
  thread_keeps = thread_turn-IsGoing debug;
  owner_keeps = owner_turn-IsGoing debug;
  thread_left = thread_turn-left debug;
  owner_left = owner_turn-left debug;
  goes_on = λ s h on. refl;
}

pub destroy_rested : (s : Session) → at_rest s ≡ true → left s ≤ 0
destroy_rested s h = ground arith

pub destroy_rests : (s : Session) → IsGoing s → left s ≤ 0 → at_rest s ≡ true
destroy_rests s h done = ground arith
