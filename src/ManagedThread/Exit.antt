-- ===== src/ManagedThread/Exit.antt =====
-- What `graceful_exit` does to the thread: at most one more call of `update()`, and the end of `task`.
use donkeycar_gt.Prelude.Relations.{All}
use donkeycar_gt.Prelude.{
  ℕ, ◌+◌, ◌≤◌, ◌-◌, ◌≡◌, refl, ◌≢◌, ◌⊎◌, Bool, true, false, List, [], ◌∷◌, arith,
}
use donkeycar_gt.TaskStatus.{request_exit}
use donkeycar_gt.ManagedThread.Worker.{
  WorkerPc, absent, loop_test, set_flag, take_lock, flag_status, drop_lock, enter_wait, asleep,
  check_flag, check_exit, updating, finished, worker_step,
}
use donkeycar_gt.ManagedThread.Caller.{
  Call, CallerPc, start, resume, suspend, graceful_exit, join, idle, locking, inside, blocked,
  leaving, caller_step,
}
use donkeycar_gt.ManagedThread.Ownership.{Inv, run-Inv, run-step-Inv}
use donkeycar_gt.ManagedThread.System.{
  Turn, of_worker, of_caller, System, step, run, run_induction, init, updates, begins,
}

-- A caller that is on its way to reset the exit flag.
abbrev pub starting : CallerPc → Bool
starting (locking start) = true
starting (inside start) = true
starting _ = false

abbrev pub NoStart : Turn → Type 0
NoStart (of_worker answer) = Unit
NoStart (of_caller i next) = next ≢ start

-- 1 if the thread has passed the last test of the exit flag before a call of `update()`.
abbrev pub pending : WorkerPc → ℕ
pending check_exit = 1
pending _ = 0

record IsExiting (s : System) : Type 0 where
  flag : s.should_exit ≡ true
  nobody : (i : ℕ) → starting (s.callers i) ≡ false

step-IsExiting :
    (debug : Bool) (t : Turn) (s : System)
    → NoStart t
    → IsExiting s
    → IsExiting (step debug t s)
      × (begins s (step debug t s) + pending (step debug t s).worker ≤ pending s.worker)
unfolding step worker_step caller_step
step-IsExiting debug (of_worker answer) s q h =
    (record { flag = ground arith; nobody = λ i. ground (arith, h.nobody i) }, ground arith)
step-IsExiting debug (of_caller i next) s q h = (
  record {
    flag = ground (arith, h.nobody i);
    nobody = λ j. ground (arith, h.nobody i, h.nobody j);
  },
  ground (arith, h.nobody i),
)

updates-le-pending :
    (debug : Bool) (ts : List Turn) (s : System)
    → All NoStart ts
    → IsExiting s
    → updates debug ts s + pending (run debug ts s).worker ≤ pending s.worker
unfolding updates run
updates-le-pending debug [] s q h = omega arith
updates-le-pending debug (t ∷ ts) s q h =
    let (h', spent) = step-IsExiting debug t s q.0 h in
    omega (arith, updates-le-pending debug ts (step debug t s) q.1 h')

-- Once the exit flag is set, at most one call of `update()` begins, and only if the thread is already
-- past its last test of the flag, in every schedule in which nobody is calling or calls `start`.
pub update_after_exit :
    (debug : Bool) (ts : List Turn) (s : System)
    → s.should_exit ≡ true
    → ((i : ℕ) → starting (s.callers i) ≡ false)
    → All NoStart ts
    → (updates debug ts s ≤ 1) × (s.worker ≢ check_exit → updates debug ts s ≡ 0)
update_after_exit debug ts s flag nobody q =
    let spent = updates-le-pending debug ts s q (record { flag = flag; nobody = nobody }) in
    (ground arith, λ other. ground arith)

-- The turns of the thread that `task` still takes once it has been told to exit.
abbrev pub rounds_left : WorkerPc → ℕ
rounds_left absent = 0
rounds_left finished = 0
rounds_left loop_test = 1
rounds_left (check_flag b) = 2
rounds_left updating = 2
rounds_left check_exit = 3
rounds_left enter_wait = 3
rounds_left asleep = 3
rounds_left _ = 4

-- Inside the thread's own call of `graceful_exit`.
abbrev pub exiting_itself : WorkerPc → Bool
exiting_itself set_flag = true
exiting_itself take_lock = true
exiting_itself flag_status = true
exiting_itself drop_lock = true
exiting_itself _ = false

-- A caller on its way to write another status, or to reset the flag.
abbrev pub interfering : CallerPc → Bool
interfering (locking start) = true
interfering (inside start) = true
interfering (locking suspend) = true
interfering (inside suspend) = true
interfering (locking resume) = true
interfering (inside resume) = true
interfering _ = false

-- Only `join` and `graceful_exit` are called, and `should_exit()` of the class answers false.
abbrev pub OnlyExits : Turn → Type 0
OnlyExits (of_worker answer) = answer ≡ false
OnlyExits (of_caller i next) = (next ≢ start) × (next ≢ suspend) × (next ≢ resume)

-- The state that `graceful_exit` leaves.
pub record IsTold (s : System) : Type 0 where
  pub flag : s.should_exit ≡ true
  pub told : s.status ≡ request_exit
  pub plain : exiting_itself s.worker ≡ false
  pub nobody : (i : ℕ) → interfering (s.callers i) ≡ false

abbrev pub worker_turns : List Turn → ℕ
worker_turns [] = 0
worker_turns (of_worker answer ∷ ts) = worker_turns ts + 1
worker_turns (of_caller i next ∷ ts) = worker_turns ts

step-IsTold :
    (debug : Bool) (t : Turn) (s : System) → OnlyExits t → IsTold s → IsTold (step debug t s)
unfolding step worker_step caller_step
step-IsTold debug (of_worker answer) s q h = record {
  flag = ground arith;
  told = ground arith;
  plain = ground arith;
  nobody = λ i. ground (arith, h.nobody i);
}
step-IsTold debug (of_caller i next) s q h = record {
  flag = ground (arith, h.nobody i);
  told = ground (arith, h.nobody i);
  plain = ground (arith, h.nobody i);
  nobody = λ j. ground (arith, h.nobody i, h.nobody j);
}

worker-rounds_left :
    (debug : Bool) (s : System)
    → IsTold s
    → rounds_left (step debug (of_worker false) s).worker ≤ rounds_left s.worker - 1
unfolding step worker_step
worker-rounds_left debug s h = ground arith

caller-rounds_left :
    (debug : Bool) (i : ℕ) (next : Call) (s : System)
    → IsTold s
    → rounds_left (step debug (of_caller i next) s).worker ≤ rounds_left s.worker
unfolding step caller_step
caller-rounds_left debug i next s h = ground (arith, h.nobody i)

rounds_left-run :
    (debug : Bool) (ts : List Turn) (s : System)
    → All OnlyExits ts
    → IsTold s
    → IsTold (run debug ts s)
      × (rounds_left (run debug ts s).worker ≤ rounds_left s.worker - worker_turns ts)
unfolding run
rounds_left-run debug [] s q h = (h, omega arith)
rounds_left-run debug (of_worker false ∷ ts) s q h =
    let (told, rest) =
      rounds_left-run debug ts _ q.1 (step-IsTold debug (of_worker false) s refl h) in
    (told, omega (arith, worker-rounds_left debug s h))
rounds_left-run debug (of_worker true ∷ ts) s q h = cc (q.0)
rounds_left-run debug (of_caller i next ∷ ts) s q h =
    let (told, rest) =
      rounds_left-run debug ts _ q.1 (step-IsTold debug (of_caller i next) s q.0 h) in
    (told, omega (arith, caller-rounds_left debug i next s h))

rounds_left-le : (pc : WorkerPc) → rounds_left pc ≤ 4
rounds_left-le pc = ground arith

rounds_left-zero : (pc : WorkerPc) → rounds_left pc ≤ 0 → (pc ≡ finished) ⊎ (pc ≡ absent)
rounds_left-zero pc h = ground arith

join-returns :
    (debug : Bool) (i : ℕ) (next : Call) (s : System)
    → Inv s
    → rounds_left s.worker ≤ 0
    → s.callers i ≡ blocked join
    → ((step debug (of_caller i next) s).callers i ≡ leaving)
      × ((step debug (of_caller i next) s).joinable ≡ false)
unfolding step caller_step
join-returns debug i next s v h e = (ground (arith, v.joins i), ground (arith, v.joins i))

-- In `graceful_exit`, with its write of the status yet to come.
abbrev pub is_exiting : CallerPc → Bool
is_exiting CallerPc.set_flag = true
is_exiting (locking graceful_exit) = true
is_exiting (inside graceful_exit) = true
is_exiting _ = false

-- What holds from the call of `graceful_exit` by caller `i` on.
record IsTelling (i : ℕ) (s : System) : Type 0 where
  flag : s.callers i ≢ CallerPc.set_flag → s.should_exit ≡ true
  told : is_exiting (s.callers i) ≡ false → s.status ≡ request_exit
  plain : exiting_itself s.worker ≡ false
  nobody : (j : ℕ) → interfering (s.callers j) ≡ false

step-IsTelling :
    (debug : Bool) (i : ℕ) (t : Turn) (s : System)
    → OnlyExits t
    → IsTelling i s
    → IsTelling i (step debug t s)
unfolding step worker_step caller_step
step-IsTelling debug i (of_worker answer) s q h = record {
  flag = λ past. ground (arith, h.flag);
  told = λ past. ground (arith, h.told);
  plain = ground arith;
  nobody = λ j. ground (arith, h.nobody j);
}
step-IsTelling debug i (of_caller k next) s q h = record {
  flag = λ past. ground (arith, h.flag, h.nobody k);
  told = λ past. ground (arith, h.told, h.nobody k);
  plain = ground (arith, h.nobody k);
  nobody = λ j. ground (arith, h.nobody k, h.nobody j);
}

returned-IsTold :
    (debug : Bool) (i : ℕ) (during : List Turn) (s : System)
    → s.callers i ≡ CallerPc.set_flag
    → exiting_itself s.worker ≡ false
    → ((j : ℕ) → interfering (s.callers j) ≡ false)
    → All OnlyExits during
    → (run debug during s).callers i ≡ idle
    → IsTold (run debug during s)
returned-IsTold debug i during s called plain nobody only returned =
    let h =
      run_induction debug (IsTelling i) OnlyExits (step-IsTelling debug i) during s only (record {
        flag = λ past. absurd (past called);
        told = λ past. ground arith;
        plain = plain;
        nobody = nobody;
      }) in
    record {
      flag = h.flag (λ e. ground arith);
      told = h.told (ground arith);
      plain = h.plain;
      nobody = h.nobody;
    }

-- A caller has called `graceful_exit` (`before`), and has returned (`during`). If from its call on the other
-- callers are in `join` and `graceful_exit` only and call nothing else, the thread was not in
-- `graceful_exit` itself, and the virtual `should_exit()` answers false, then `task` returns within the next
-- four turns of the thread (`after`), in every schedule; a caller that waits in `join` then returns at its
-- next turn, and the object has no thread. The call of `update()` that may be going on is to return.
pub exit_terminates :
    (debug start_paused : Bool) (before during after : List Turn) (i j : ℕ) (next : Call)
    → let s = run debug before (init start_paused) in
      let r = run debug during s in
      let t = run debug after r in
      s.callers i ≡ CallerPc.set_flag
      → exiting_itself s.worker ≡ false
      → ((k : ℕ) → interfering (s.callers k) ≡ false)
      → All OnlyExits during
      → r.callers i ≡ idle
      → All OnlyExits after
      → 4 ≤ worker_turns after
      → ((t.worker ≡ finished) ⊎ (t.worker ≡ absent))
        × (t.callers j ≡ blocked join
            → ((step debug (of_caller j next) t).callers j ≡ leaving)
              × ((step debug (of_caller j next) t).joinable ≡ false))
exit_terminates debug start_paused before during after i j next called plain nobody only returned q
      enough =
    (rounds_left-zero t.worker over, join-returns debug j next t v over)
  where
    r : System
    r = run debug during (run debug before (init start_paused))

    t : System
    t = run debug after r

    told : IsTold r
    told =
        returned-IsTold debug i during (run debug before (init start_paused)) called plain nobody
          only returned

    over : rounds_left t.worker ≤ 0
    over = omega (arith, (rounds_left-run debug after r q told).1, rounds_left-le r.worker)

    v : Inv t
    v = run-step-Inv debug after r (
        run-step-Inv debug during (run debug before (init start_paused))
          (run-Inv debug start_paused before))
