-- ===== src/Part/Interrupted/Outcome.antt =====
-- src/vehicle.cpp, `signal_handler`, and the call of `start` that it interrupts.
use donkeycar_gt.Prelude.{
  ℕ, ◌+◌, ◌-◌, ◌≤◌, ◌≡◌, refl, ◌∙◌, ◌⊎◌, inl, inr, Bool, true, false, Bool-cases, List, [], ◌∷◌,
  length, if◌then◌else◌, arith,
}
use donkeycar_gt.Prelude.Rounds.{rounds_of, IsProgress, rounds-left}
use donkeycar_gt.ManagedThread.Caller.{
  Call, CallerPc, idle, set_flag, locking, inside, blocked, leaving, aborted,
}
use donkeycar_gt.Part.{Session, owner_turn, thread_turn}
use donkeycar_gt.Part.Fleet.{is_returned}
use donkeycar_gt.Part.Interrupted.{Interrupted, main_turn_at, main_turn, part_turn}
use donkeycar_gt.Part.Interrupted.Handling.{
  IsHandled, returned, joins, part_turn-IsHandled, main_turn-IsHandled, part_turn-left,
  main_turn-left, part_turn-joins, unreturned-left, part_turn-Frozen, main_turn-Frozen,
}
use donkeycar_gt.Part.Interrupted.Handling as handling

-- When the handler is over the interrupted call goes on.
abbrev goes_on_with : Bool → Interrupted → Interrupted
goes_on_with debug t = record t { session = owner_turn debug t.session }

main_turn_at-returned :
    (debug : Bool) (t : Interrupted) (pc : CallerPc) (cs : List Call)
    → is_returned pc cs ≡ true
    → main_turn_at debug t pc cs ≡ goes_on_with debug t
main_turn_at-returned debug t idle [] h = refl
main_turn_at-returned debug t idle (c ∷ cs) h = cc
main_turn_at-returned debug t set_flag cs h = cc
main_turn_at-returned debug t (locking c) cs h = cc
main_turn_at-returned debug t (inside c) cs h = cc
main_turn_at-returned debug t (blocked c) cs h = cc
main_turn_at-returned debug t leaving cs h = cc
main_turn_at-returned debug t aborted cs h = cc

main_turn-returned :
    (debug : Bool) (t : Interrupted) → returned t ≡ true → main_turn debug t ≡ goes_on_with debug t
unfolding main_turn
main_turn-returned debug t h = main_turn_at-returned debug t t.handler t.to_call h

falls :
    (n k k' : ℕ) (b : Bool)
    → 1 ≤ k
    → k' ≤ k - (if b then 1 else 0)
    → n + k' ≤ n + k - (if b then 1 else 0)
falls n k k' true some_left less = omega arith
falls n k k' false some_left less = omega arith

falls_else :
    (n k k' : ℕ) (b : Bool)
    → 1 ≤ k
    → k' ≤ k - (if b then 0 else 1)
    → n + k' ≤ n + k - (if b then 0 else 1)
falls_else n k k' true some_left less = omega arith
falls_else n k k' false some_left less = omega arith

under : (n k m : ℕ) (b : Bool) → m ≤ n → 1 ≤ k → m ≤ n + k - (if b then 0 else 1)
under n k m true le some_left = omega arith
under n k m false le some_left = omega arith

-- The handler first, and then the interrupted calls, which keep `Inv` and come to their end as `left` says.
module _ (debug had held : Bool) (pc : CallerPc) (cs : List Call) {Inv : Session → Type 0}
    {left : Session → ℕ} {waits : Session → Bool}
    (p : IsProgress (thread_turn debug) (owner_turn debug) Inv left waits) (bound : ℕ)
    (most : (s : Session) → Inv s → left s ≤ bound)
    (enter : (t : Interrupted)
      → t.session.system.callers 0 ≡ pc
      → t.session.calls ≡ cs
      → IsHandled had held t
      → returned t ≡ true
      → Inv t.session) where
  abbrev IsDuring : Interrupted → Type 0
  IsDuring t =
      (returned t ≡ false)
      × IsHandled had held t
      × (t.session.system.callers 0 ≡ pc)
      × (t.session.calls ≡ cs)

  abbrev IsSince : Interrupted → Type 0
  IsSince t = (returned t ≡ true) × Inv t.session

  abbrev IsEither : Interrupted → Type 0
  IsEither t = IsDuring t ⊎ IsSince t

  abbrev all_left : Interrupted → ℕ
  all_left t = if returned t then left t.session else bound + handling.left t

  abbrev all_waits : Interrupted → Bool
  all_waits t = if returned t then waits t.session else joins t

  part_turn-IsEither : (t : Interrupted) → IsEither t → IsEither (part_turn debug t)
  unfolding part_turn
  part_turn-IsEither t (inl (on, h, here, rest)) =
      let (here', rest') = part_turn-Frozen debug t in
      inl (on, part_turn-IsHandled debug had held t h, here' ∙ here, rest' ∙ rest)
  part_turn-IsEither t (inr (over, h)) = inr (over, p.thread_keeps t.session h)

  main_turn-IsEither : (t : Interrupted) → IsEither t → IsEither (main_turn debug t)
  main_turn-IsEither t (inl (on, h, here, rest)) =
      let (here', rest') = main_turn-Frozen debug t on in
      let h' = main_turn-IsHandled debug had held t h on in
      elim (Bool-cases (returned (main_turn debug t))) [
        | inl over ↦ inr (over, enter _ (here' ∙ here) (rest' ∙ rest) h' over)
        | inr on' ↦ inl (on', h', here' ∙ here, rest' ∙ rest)
      ]
  main_turn-IsEither t (inr (over, h)) =
      rw (main_turn-returned debug t over) (inr (over, p.owner_keeps t.session h))

  part_turn-all_left :
      (t : Interrupted)
      → IsEither t
      → all_left (part_turn debug t) ≤ all_left t - (if all_waits t then 1 else 0)
  unfolding part_turn
  part_turn-all_left t (inl (on, h, here, rest)) =
      let less = part_turn-left debug had held t h in
      rw on (falls bound _ _ (joins t) (unreturned-left had held t h on) less)
  part_turn-all_left t (inr (over, h)) = rw over (p.thread_left t.session h)

  main_turn-all_left :
      (t : Interrupted)
      → IsEither t
      → all_left (main_turn debug t) ≤ all_left t - (if all_waits t then 0 else 1)
  main_turn-all_left t (inl (on, h, here, rest)) =
      let less = main_turn-left debug had held t h on in
      let (here', rest') = main_turn-Frozen debug t on in
      let h' = main_turn-IsHandled debug had held t h on in
      let some_left = unreturned-left had held t h on in
      elim (Bool-cases (returned (main_turn debug t))) [
        | inl over ↦
            rw (over, on)
              (under bound _ _ (joins t) (most _ (enter _ (here' ∙ here) (rest' ∙ rest) h' over))
                some_left)
        | inr on' ↦ rw (on', on) (falls_else bound _ _ (joins t) some_left less)
      ]
  main_turn-all_left t (inr (over, h)) =
      rw (main_turn-returned debug t over, over) (p.owner_left t.session h)

  part_turn-all_waits :
      (t : Interrupted) → IsEither t → all_waits t ≡ false → all_waits (part_turn debug t) ≡ false
  unfolding part_turn
  part_turn-all_waits t (inl (on, h, here, rest)) quiet =
      rw on (part_turn-joins debug had held t h (rw on at quiet))
  part_turn-all_waits t (inr (over, h)) quiet = rw over (p.goes_on t.session h (rw over at quiet))

  IsEither-IsProgress : IsProgress (part_turn debug) (main_turn debug) IsEither all_left all_waits
  IsEither-IsProgress = record {
    thread_keeps = part_turn-IsEither;
    owner_keeps = main_turn-IsEither;
    thread_left = part_turn-all_left;
    owner_left = main_turn-all_left;
    goes_on = part_turn-all_waits;
  }

  either_done :
      (t : Interrupted)
      → IsEither t
      → all_left t ≤ 0
      → (returned t ≡ true) × Inv t.session × (left t.session ≤ 0)
  either_done t (inl (on, h, here, rest)) done =
      let none_left : bound + handling.left t ≤ 0 = rw on at done in
      absurd (omega (arith, unreturned-left had held t h on))
  either_done t (inr (over, h)) done = (over, h, rw over at done)

  all_left-le : (t : Interrupted) → returned t ≡ false → all_left t ≤ bound + 87
  all_left-le t on = rw on (omega (arith, handling.left-le t))

  -- In a fair execution the handler returns, and then the interrupted calls come to their end.
  pub interrupted_done :
      (after : List ℕ) (t : Interrupted)
      → returned t ≡ false
      → IsHandled had held t
      → t.session.system.callers 0 ≡ pc
      → t.session.calls ≡ cs
      → bound + 87 ≤ length after
      → let u = rounds_of (part_turn debug) (main_turn debug) after t in
        (returned u ≡ true) × Inv u.session × (left u.session ≤ 0)
  interrupted_done after t on h here rest enough =
      let (either, less) = rounds-left IsEither-IsProgress after t (inl (on, h, here, rest)) in
      either_done _ either (omega (arith, less, all_left-le t on))
