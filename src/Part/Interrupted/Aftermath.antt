-- ===== src/Part/Interrupted/Aftermath.antt =====
-- src/managed-thread.cpp, `start` and `resume` after the handler of a signal has ended the thread: how the calls
-- that the signal came upon go on.
use donkeycar_gt.Prelude.{
  ℕ, ◌-◌, ◌≤◌, ◌≡◌, refl, Bool, true, false, not, none, some, List, [], ◌∷◌, if◌then◌else◌, arith,
}
use donkeycar_gt.Prelude.Rounds.{IsProgress}
use donkeycar_gt.TaskStatus.{MtsState, request_run}
use donkeycar_gt.ManagedThread.Worker.{caller, absent, worker_step}
use donkeycar_gt.ManagedThread.Caller.{
  Call, CallerPc, idle, locking, inside, blocked, leaving, aborted, start, resume, caller_step,
}
use donkeycar_gt.ManagedThread.System.{step}
use donkeycar_gt.ManagedThread.Ownership.{holding}
use donkeycar_gt.Part.{Session, owner_turn, thread_turn}
use donkeycar_gt.Part.Shutdown.{is_exit?}

-- When a signal comes: before the thread is made, before `resume` asks it to run, while `resume` waits for its
-- answer, or when `resume` is over.
pub data Moment : Type 0 where
  before_start before_resume in_resume after_resume : Moment

abbrev pub moment : CallerPc → List Call → Moment
moment idle (start ∷ cs) = before_start
moment (locking start) cs = before_start
moment (inside start) cs = before_start
moment leaving (resume ∷ cs) = before_resume
moment idle (resume ∷ cs) = before_resume
moment (locking resume) cs = before_resume
moment (inside resume) cs = before_resume
moment (blocked c) cs = in_resume
moment pc cs = after_resume

abbrev fits_gone : Bool → Moment → CallerPc → List Call → MtsState → Bool
fits_gone debug before_resume leaving (resume ∷ []) st = is_exit? st
fits_gone debug before_resume idle (resume ∷ []) st = is_exit? st
fits_gone debug before_resume (locking resume) [] st = is_exit? st
fits_gone debug before_resume (inside resume) [] st = is_exit? st
fits_gone debug before_resume aborted [] st = debug
fits_gone debug before_resume (blocked resume) [] request_run = not debug
fits_gone debug in_resume (blocked resume) [] st = is_exit? st
fits_gone debug after_resume leaving [] st = is_exit? st
fits_gone debug after_resume idle [] st = is_exit? st
fits_gone debug w pc cs st = false

-- The part has no thread, and `start` goes on.
pub record IsGone (debug : Bool) (w : Moment) (s : Session) : Type 0 where
  pub alone : s.system.owner ≡ (if holding (s.system.callers 0) then some (caller 0) else none)
  pub thread : s.system.worker ≡ absent
  pub unjoinable : s.system.joinable ≡ false
  pub told : s.system.should_exit ≡ true
  pub place : fits_gone debug w (s.system.callers 0) s.calls s.system.status ≡ true

abbrev pub gone_left : CallerPc → List Call → ℕ
gone_left leaving (resume ∷ cs) = 5
gone_left idle (resume ∷ cs) = 4
gone_left (locking resume) cs = 3
gone_left (inside resume) cs = 2
gone_left leaving [] = 1
gone_left pc cs = 0

abbrev pub left : Session → ℕ
left s = gone_left (s.system.callers 0) s.calls

pub left-le : (s : Session) → left s ≤ 5
left-le s = ground arith

abbrev pub never : Session → Bool
never s = false

module _ (debug : Bool) (w : Moment) where
  thread_turn-IsGone : (s : Session) → IsGone debug w s → IsGone debug w (thread_turn debug s)
  unfolding thread_turn step worker_step
  thread_turn-IsGone s h = record {
    alone = ground arith;
    thread = ground arith;
    unjoinable = ground arith;
    told = ground arith;
    place = ground arith;
  }

  owner_turn-IsGone : (s : Session) → IsGone debug w s → IsGone debug w (owner_turn debug s)
  unfolding owner_turn step caller_step
  owner_turn-IsGone s h = record {
    alone = ground arith;
    thread = ground arith;
    unjoinable = ground arith;
    told = ground arith;
    place = ground arith;
  }

  thread_turn-left : (s : Session) → IsGone debug w s → left (thread_turn debug s) ≤ left s - 0
  unfolding thread_turn step worker_step
  thread_turn-left s h = ground arith

  owner_turn-left : (s : Session) → IsGone debug w s → left (owner_turn debug s) ≤ left s - 1
  unfolding owner_turn step caller_step
  owner_turn-left s h = ground arith

  pub IsGone-IsProgress :
      IsProgress (thread_turn debug) (owner_turn debug) (IsGone debug w) left never
  IsGone-IsProgress = record {
    thread_keeps = thread_turn-IsGone;
    owner_keeps = owner_turn-IsGone;
    thread_left = thread_turn-left;
    owner_left = owner_turn-left;
    goes_on = λ s h on. refl;
  }
