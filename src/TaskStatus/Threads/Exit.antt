-- ===== src/TaskStatus/Threads/Exit.antt =====
-- src/managed-task-status.cpp, `set_exit_flag_blocking` among the calls of any number of threads.
use donkeycar_gt.Prelude.{
  ℕ, ◌≡◌, refl, sym, ap, ◌∙◌, ◌⊎◌, inl, inr, Bool, true, false, List, [], ◌∷◌, arith,
}
use donkeycar_gt.Monitor.{turns, new_shared}
use donkeycar_gt.Monitor.Linear.{Explains, Logged, holding, turns_linearize}
use donkeycar_gt.TaskStatus.{
  MtsState, init_status, request_exit, pause_task_blocking, resume_task_blocking, pause_loop,
  resume_loop, wait_to_run, wait_wake, set_exit_flag_blocking, request_pause?, is_running,
  is_paused,
}
use donkeycar_gt.TaskStatus.Threads.{
  Method, pausing, resuming, running_wait, exiting, asking_pause, asking_running, asking_paused,
  Section, called, woken, Outcome, done, answered, waits_in, failed, section, after_section, locks,
  calls,
}

-- Whether `set_exit_flag_blocking` has taken effect; the log has its newest entry first.
abbrev pub told : List (Section × Outcome) → Bool
told [] = false
told ((called exiting, a) ∷ log) = true
told ((e, a) ∷ log) = told log

-- How a section ends once the task was told to exit, in a build with assertions.
abbrev pub ends_told : Section → Outcome
ends_told (called pausing) = failed
ends_told (called resuming) = failed
ends_told (woken pausing) = waits_in pausing
ends_told (woken resuming) = waits_in resuming
ends_told (called running_wait) = answered false
ends_told (woken running_wait) = answered false
ends_told (called exiting) = done
ends_told (called asking_pause) = answered false
ends_told (called asking_running) = answered false
ends_told (called asking_paused) = answered false
ends_told (woken method) = done

-- Every section after the first `set_exit_flag_blocking` ended like that.
abbrev pub AllTold : List (Section × Outcome) → Type 0
AllTold [] = Unit {0}
AllTold ((e, a) ∷ log) = (told log ≡ true → a ≡ ends_told e) × AllTold log

locks-all : (e : Section) → locks e ≡ true
locks-all (called method) = ground arith
locks-all (woken method) = refl

section-told : (e : Section) → section true e request_exit ≡ (request_exit, ends_told e)
unfolding section pause_task_blocking resume_task_blocking wait_to_run wait_wake
    set_exit_flag_blocking pause_loop resume_loop request_pause? is_running is_paused
section-told e = ground arith

exiting-exits : (s : MtsState) → (section true (called exiting) s).0 ≡ request_exit
unfolding section set_exit_flag_blocking
exiting-exits s = refl

told-cons :
    (e : Section) (a : Outcome) (log : List (Section × Outcome))
    → told ((e, a) ∷ log) ≡ true
    → (e ≡ called exiting) ⊎ (told log ≡ true)
told-cons e a log was = ground arith

Explains-AllTold :
    (init : MtsState) (log : List (Section × Outcome)) (m : MtsState)
    → Explains (section true) init log m
    → AllTold log × (told log ≡ true → m ≡ request_exit)
Explains-AllTold init [] m start = (tt, λ no. cc)
Explains-AllTold init ((e, a) ∷ log) m (before, earlier, ran) =
    let (all, exits) = Explains-AllTold init log before earlier in
    let ends : told log ≡ true → section true e before ≡ (request_exit, ends_told e) =
      λ was. ap (section true e) (exits was) ∙ section-told e in
    (
      (λ was. sym (ap (λ r. r.1) ran) ∙ ap (λ r. r.1) (ends was), all),
      λ now. elim (told-cons e a log now) [
        | inl exit ↦
            sym (ap (λ r. r.0) ran)
            ∙ ap (λ e'. (section true e' before).0) exit
            ∙ exiting-exits before
        | inr was ↦ sym (ap (λ r. r.0) ran) ∙ ap (λ r. r.0) (ends was)
      ],
    )

-- A status that any number of threads use, in any order of their steps, in a build with assertions: the sections
-- of the methods took effect one after the other, and from the first `set_exit_flag_blocking` on the
-- state is MTSSM_REQUEST_EXIT for ever. Every `wait_to_run` that looks at it then answers false, a call of
-- `pause_task_blocking` or `resume_task_blocking` fails its assertion, and one that waits goes on to wait.
-- What a thread is about to do is what the log says, and no two threads hold the mutex.
pub exit_is_final :
    (starts_running : Bool) (schedule : List (ℕ × Method))
    → let s =
        turns locks
          (section true)
          after_section
          (calls schedule)
          (new_shared (init_status starts_running)) in
      (told s.log ≡ true → s.state ≡ request_exit)
      × AllTold s.log
      × ((t : ℕ) → Logged after_section s.log (s.places t))
      × ((t u : ℕ) → holding (s.places t) ≡ true → holding (s.places u) ≡ true → t ≡ u)
exit_is_final starts_running schedule =
    let (explained, logged, alone) =
      turns_linearize locks (section true) after_section (init_status starts_running) locks-all
        (calls schedule) in
    let (all, exits) = Explains-AllTold (init_status starts_running) _ _ explained in
    (exits, all, logged, alone)
