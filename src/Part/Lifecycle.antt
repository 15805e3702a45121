-- ===== src/Part/Lifecycle.antt =====
-- include/parts/part.hpp: a part from its constructor through `start` to the end of `shutdown`.
use donkeycar_gt.Prelude.{Bool, ℕ, ◌≤◌, ◌≡◌, true, false, List, [], length, arith}
use donkeycar_gt.TaskStatus.{running}
use donkeycar_gt.ManagedThread.Worker.{absent}
use donkeycar_gt.ManagedThread.Caller.{idle}
use donkeycar_gt.Part.{Session, start_calls, shutdown_calls, new_part, rounds}
use donkeycar_gt.Part.Start.{IsStarting, start_returns}
use donkeycar_gt.Part.Shutdown.{IsStopping, shutdown_returns}

-- The owner calls `shutdown`.
abbrev pub shut_down : Session → Session
shut_down s = record s { calls = shutdown_calls true }

pub started-IsStopping :
    (s : Session)
    → IsStarting s
    → s.system.callers 0 ≡ idle
    → s.calls ≡ []
    → s.system.status ≡ running
    → IsStopping (shut_down s)
started-IsStopping s h at_rest all runs = record {
  alone = h.alone;
  plain = h.plain;
  thread = h.thread;
  unfinished = ground (arith, h.unfinished);
  awake = ground (arith, h.sleeps);
  place = ground (arith, h.place);
}

-- A part with a thread, in any fair execution: `start` returns within 79 rounds, and then the part has a
-- thread, which was not told to exit, and the status is running. However long it has run, `shutdown` then
-- returns within 87 rounds, and leaves no thread. In each round the thread takes a turn or more, and the
-- owner one.
pub part_lifecycle :
    (debug : Bool) (working stopping : List ℕ)
    → 79 ≤ length working
    → 87 ≤ length stopping
    → let s = rounds debug working (new_part (start_calls true)) in
      let t = rounds debug stopping (shut_down s) in
      (s.system.callers 0 ≡ idle)
      × (s.calls ≡ [])
      × (s.system.status ≡ running)
      × (s.system.joinable ≡ true)
      × (s.system.should_exit ≡ false)
      × (t.system.callers 0 ≡ idle)
      × (t.calls ≡ [])
      × (t.system.joinable ≡ false)
      × (t.system.worker ≡ absent)
part_lifecycle debug working stopping enough enough' =
    let (h, at_rest, all, runs, alive) = start_returns debug working enough in
    let (at_rest', all', gone, over) =
      shutdown_returns debug stopping
        (shut_down (rounds debug working (new_part (start_calls true))))
        (started-IsStopping _ h at_rest all runs) at_rest enough' in
    (at_rest, all, runs, alive, h.flag, at_rest', all', gone, over)
