-- ===== src/Part/Interrupted/Entry.antt =====
-- src/vehicle.cpp, `signal_handler`: what it finds when it comes upon `start` of a part (include/parts/part.hpp), and
-- what it leaves to it.
use donkeycar_gt.Prelude.{◌≡◌, refl, ◌≢◌, Bool, true, arith}
use donkeycar_gt.ManagedThread.Ownership.{holding}
use donkeycar_gt.Part.{Session}
use donkeycar_gt.Part.Start.{IsStarting}
use donkeycar_gt.Part.Interrupted.{Interrupted, interrupt}
use donkeycar_gt.Part.Interrupted.Handling.{IsHandled, returned, returned-gone}
use donkeycar_gt.Part.Interrupted.Aftermath.{Moment, before_start, moment, IsGone}

pub interrupt-IsHandled :
    (s : Session)
    → IsStarting s
    → IsHandled s.system.joinable (holding (s.system.callers 0)) (interrupt s)
interrupt-IsHandled s h = record {
  holds = refl;
  alone = ground (arith, h.alone);
  plain = h.plain;
  thread = h.thread;
  unfinished = λ e. absurd (h.unfinished e);
  place = ground (arith, h.flag);
}

module _ (debug : Bool) (s : Session) (h : IsStarting s) (t : Interrupted)
    (here : t.session.system.callers 0 ≡ s.system.callers 0) (rest : t.session.calls ≡ s.calls)
    (g : IsHandled s.system.joinable (holding (s.system.callers 0)) t)
    (over : returned t ≡ true) where
  pub enter-IsGone :
      (w : Moment)
      → moment (s.system.callers 0) s.calls ≡ w
      → w ≢ before_start
      → IsGone debug w t.session
  enter-IsGone w at_moment later =
      let (owned, gone, unjoinable, told, exits) = returned-gone _ _ t g over in
      let place = h.place in
      record {
        alone = rw here owned;
        thread = gone;
        unjoinable = unjoinable;
        told = told;
        place = ground arith;
      }
