-- ===== src/Monitor.antt =====
-- include/lock.hpp and include/event.h: how the program uses them. Any number of threads work on a state that
-- one mutex is to guard, in any order of their steps. An entry is a piece of code: a thread locks the mutex, if
-- the code has a `Lock`, looks at the state, writes what it computed from what it saw, and unlocks the
-- mutex, at the end of the `Lock` or in the wait of an `Event`. So two that overlap could lose a write.
pub mod Linear
use donkeycar_gt.Prelude.{ℕ, Bool, Option, none, some, List, [], ◌∷◌, ◌==◌, if◌then◌else◌}

-- What a thread does after its write: its method returns, it waits on the event and then goes on with an
-- entry, or it stops with the mutex held, as an assertion failed.
pub data After {ℓ} (E : Type ℓ) : Type ℓ where
  returns : After E
  waits : E → After E
  stops : After E

-- Where a thread stands, with what it saw.
pub data Place {ℓ} (E S A : Type ℓ) : Type ℓ where
  idle : Place E S A
  locking : E → Place E S A
  entered : E → Place E S A
  looked : E → S → Place E S A
  leaving : A → Place E S A
  pausing : E → Place E S A  -- about to wait, with the mutex
  asleep : E → Place E S A  -- in the wait, without it
  stopped : A → Place E S A

pub record Shared {ℓ} (E S A : Type ℓ) : Type ℓ where
  pub state : S
  pub owner : Option ℕ  -- of the mutex
  pub places : ℕ → Place E S A
  -- the entries that took effect and their answers, newest first; no thread reads it
  pub log : List (E × A)

-- `pthread_mutex_unlock`, which has an effect only for the thread that holds the mutex.
abbrev pub released : ℕ → Option ℕ → Option ℕ
released t none = none
released t (some u) = if t == u then none else some u

module _ {ℓ} {E S A : Type ℓ} where
  abbrev pub moved : Shared E S A → ℕ → Place E S A → Shared E S A
  moved s t pc = record s { places = λ u. if t == u then pc else s.places u }

  -- `pthread_mutex_lock` by a thread that does not hold the mutex.
  abbrev pub acquire : Shared E S A → ℕ → E → Option ℕ → Shared E S A
  acquire s t e none = moved (record s { owner = some t }) t (entered e)
  acquire s t e (some other) = s

  abbrev pub place_after : A → After E → Place E S A
  place_after a returns = leaving a
  place_after a (waits e) = pausing e
  place_after a stops = stopped a

  unfoldable pub new_shared : S → Shared E S A
  new_shared s = record { state = s; owner = none; places = λ t. idle; log = [] }

  -- `locks` says whether an entry begins with a `Lock`; a wait takes the mutex again when it is over.
  module _ (locks : E → Bool) (body : E → S → S × A) (after : A → After E) where
    -- A waiting thread may wake up at any time, since all waits are timed; it then wants the mutex again.
    pub turn_at : Shared E S A → ℕ → E → Place E S A → Shared E S A
    turn_at s t next idle = moved s t (if locks next then locking next else entered next)
    turn_at s t next (locking e) = acquire s t e s.owner
    turn_at s t next (entered e) = moved s t (looked e s.state)
    turn_at s t next (looked e seen) =
        let (m, a) = body e seen in
        moved (record s { state = m; log = (e, a) ∷ s.log }) t (place_after a (after a))
    turn_at s t next (leaving a) = moved (record s { owner = released t s.owner }) t idle
    turn_at s t next (pausing e) = moved (record s { owner = released t s.owner }) t (asleep e)
    turn_at s t next (asleep e) = moved s t (locking e)
    turn_at s t next (stopped a) = s

    -- A turn of thread `t`, which calls `next` if it is idle.
    unfoldable pub turn : ℕ × E → Shared E S A → Shared E S A
    unfolding turn_at
    turn (t, next) s = turn_at s t next (s.places t)

    unfoldable pub turns : List (ℕ × E) → Shared E S A → Shared E S A
    turns [] s = s
    turns (now ∷ later) s = turns later (turn now s)
