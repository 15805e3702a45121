-- ===== src/Part/Interrupted/Handling.antt =====
-- src/vehicle.cpp, `signal_handler`, while `start` of a part stands anywhere: the calls of the handler.
use donkeycar_gt.Prelude.{
  ℕ, ◌+◌, ◌-◌, ◌*◌, ◌≤◌, ◌≡◌, refl, ap, ◌∙◌, Option, Bool, true, false, not, ◌&&◌, ◌||◌, none, some,
  List, [], ◌∷◌, if◌then◌else◌, arith,
}
use donkeycar_gt.TaskStatus.{MtsState}
use donkeycar_gt.ManagedThread.Worker.{Shared, caller, absent, finished, worker_step}
use donkeycar_gt.ManagedThread.Caller.{
  Call, CallerPc, idle, set_flag, locking, inside, blocked, leaving, aborted, graceful_exit, join,
  caller_step,
}
use donkeycar_gt.ManagedThread.System.{System, after_worker, step}
use donkeycar_gt.ManagedThread.Ownership.{holding, is_absent}
use donkeycar_gt.ManagedThread.Exit.{exiting_itself}
use donkeycar_gt.Part.{thread_turn}
use donkeycar_gt.Part.Shutdown.{stage, wait_left, is_joining, is_exit?}
use donkeycar_gt.Part.Fleet.{is_returned}
use donkeycar_gt.Part.Interrupted.{Interrupted, after_handler, main_turn_at, main_turn, part_turn}

abbrev agree : Bool → Bool → Bool
agree true b = b
agree false b = not b

-- Where the handler may be, with what calls to come, whether there was a thread, whether there is one and it
-- was told to exit, and the status.
abbrev fits : CallerPc → List Call → (had alive told : Bool) → MtsState → Bool
fits idle (graceful_exit ∷ join ∷ []) had alive told st = agree had alive && not told
fits set_flag (join ∷ []) had alive told st = agree had alive && not told
fits (locking graceful_exit) (join ∷ []) had alive told st = agree had alive && told
fits (inside graceful_exit) (join ∷ []) had alive told st = agree had alive && told
fits leaving (join ∷ []) had alive told st = agree had alive && told && is_exit? st
fits idle (join ∷ []) had alive told st = agree had alive && told && is_exit? st
fits (locking join) [] had alive told st = agree had alive && told && is_exit? st
fits (inside join) [] had alive told st = agree had alive && told && is_exit? st
fits (blocked join) [] had alive told st = alive && told && is_exit? st
fits leaving [] had alive told st = not alive && told && is_exit? st
fits idle [] had alive told st = not alive && told && is_exit? st
fits pc cs had alive told st = false

-- `had`: there was a thread when the signal came; `held`: the call that it came upon holds the mutex.
pub record IsHandled (had held : Bool) (t : Interrupted) : Type 0 where
  pub holds : holding (t.session.system.callers 0) ≡ held
  pub alone : t.session.system.owner ≡ (if held || holding t.handler then some (caller 0) else none)
  pub plain : exiting_itself t.session.system.worker ≡ false
  pub thread : is_absent t.session.system.worker ≡ not t.session.system.joinable
  pub unfinished : t.session.system.worker ≡ finished → t.session.system.should_exit ≡ true
  pub place :
      fits t.handler t.to_call had t.session.system.joinable t.session.system.should_exit
        t.session.system.status
      ≡ true

abbrev pub left : Interrupted → ℕ
left t = 8 * stage t.handler t.to_call + wait_left t.handler t.to_call t.session.system.worker

abbrev pub joins : Interrupted → Bool
joins t = is_joining t.handler t.session.system.worker

-- The handler is over.
abbrev pub returned : Interrupted → Bool
returned t = is_returned t.handler t.to_call

-- The call that the signal came upon stays where it is, as long as the handler is not over.
abbrev pub Frozen : Interrupted → Interrupted → Type 0
Frozen t u =
    (u.session.system.callers 0 ≡ t.session.system.callers 0) × (u.session.calls ≡ t.session.calls)

after_worker-callers : (s : System) (o : Option Shared) → (after_worker s o).callers ≡ s.callers
after_worker-callers s none = refl
after_worker-callers s (some m) = refl

pub part_turn-Frozen : (debug : Bool) (t : Interrupted) → Frozen t (part_turn debug t)
unfolding part_turn thread_turn step
part_turn-Frozen debug t =
    (ap (λ (f : ℕ → CallerPc). f 0) (after_worker-callers t.session.system _), refl)

after_handler-Frozen :
    (t : Interrupted) (cs : List Call) (o : Option (Shared × CallerPc))
    → Frozen t (after_handler t cs o)
after_handler-Frozen t cs none = (refl, refl)
after_handler-Frozen t cs (some (m, pc)) = (refl, refl)

main_turn_at-Frozen :
    (debug : Bool) (t : Interrupted) (pc : CallerPc) (cs : List Call)
    → is_returned pc cs ≡ false
    → Frozen t (main_turn_at debug t pc cs)
main_turn_at-Frozen debug t idle [] h = cc
main_turn_at-Frozen debug t idle (c ∷ cs) h = after_handler-Frozen t cs _
main_turn_at-Frozen debug t set_flag cs h = after_handler-Frozen t cs _
main_turn_at-Frozen debug t (locking c) cs h = after_handler-Frozen t cs _
main_turn_at-Frozen debug t (inside c) cs h = after_handler-Frozen t cs _
main_turn_at-Frozen debug t (blocked c) cs h = after_handler-Frozen t cs _
main_turn_at-Frozen debug t leaving cs h = after_handler-Frozen t cs _
main_turn_at-Frozen debug t aborted cs h = after_handler-Frozen t cs _

pub main_turn-Frozen :
    (debug : Bool) (t : Interrupted) → returned t ≡ false → Frozen t (main_turn debug t)
unfolding main_turn
main_turn-Frozen debug t h = main_turn_at-Frozen debug t t.handler t.to_call h

pub left-le : (t : Interrupted) → left t ≤ 87
left-le t = ground arith

pub returned-idle : (t : Interrupted) → returned t ≡ true → (t.handler ≡ idle) × (t.to_call ≡ [])
returned-idle t h = (ground arith, ground arith)

pub unreturned-left :
    (had held : Bool) (t : Interrupted) → IsHandled had held t → returned t ≡ false → 1 ≤ left t
unreturned-left had held t h on = ground arith

-- What the handler leaves behind.
pub returned-gone :
    (had held : Bool) (t : Interrupted)
    → IsHandled had held t
    → returned t ≡ true
    → let m = t.session.system.shared in
      (m.owner ≡ (if held then some (caller 0) else none))
      × (m.worker ≡ absent)
      × (m.joinable ≡ false)
      × (m.should_exit ≡ true)
      × (is_exit? m.status ≡ true)
returned-gone had held t h over =
    (ground arith, ground arith, ground arith, ground arith, ground arith)

module _ (debug had held : Bool) where
  pub part_turn-IsHandled :
      (t : Interrupted) → IsHandled had held t → IsHandled had held (part_turn debug t)
  unfolding part_turn thread_turn step worker_step
  part_turn-IsHandled t h = record {
    holds = ap holding (part_turn-Frozen debug t).0 ∙ h.holds;
    alone = ground arith;
    plain = ground arith;
    thread = ground arith;
    unfinished = ground arith;
    place = ground arith;
  }

  pub part_turn-left :
      (t : Interrupted)
      → IsHandled had held t
      → left (part_turn debug t) ≤ left t - (if joins t then 1 else 0)
  unfolding part_turn thread_turn step worker_step
  part_turn-left t h = ground arith

  pub part_turn-joins :
      (t : Interrupted) → IsHandled had held t → joins t ≡ false → joins (part_turn debug t) ≡ false
  unfolding part_turn thread_turn step worker_step
  part_turn-joins t h quiet = ground arith

  pub main_turn-IsHandled :
      (t : Interrupted)
      → IsHandled had held t
      → returned t ≡ false
      → IsHandled had held (main_turn debug t)
  unfolding main_turn caller_step
  main_turn-IsHandled t h on = record {
    holds = ap holding (main_turn-Frozen debug t on).0 ∙ h.holds;
    alone = ground arith;
    plain = ground arith;
    thread = ground arith;
    unfinished = ground arith;
    place = ground arith;
  }

  pub main_turn-left :
      (t : Interrupted)
      → IsHandled had held t
      → returned t ≡ false
      → left (main_turn debug t) ≤ left t - (if joins t then 0 else 1)
  unfolding main_turn caller_step
  main_turn-left t h on = ground arith
