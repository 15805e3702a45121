-- ===== src/Monitor/Linear.antt =====
-- include/lock.hpp and include/event.h: what threads do under one mutex takes effect one after the other.
use mathlib.Core.List.{Memᴰ}
use donkeycar_gt.Prelude.{
  ℕ, ◌≡◌, refl, sym, ap, Bool-cases, inl, inr, Bool, true, false, Option, none, some, List, [], ◌∷◌,
  ◌==◌, if◌then◌else◌, arith,
}
use donkeycar_gt.Monitor.{
  After, returns, waits, stops, Place, idle, locking, entered, looked, leaving, pausing, asleep,
  stopped, Shared, acquire, place_after, turn_at, turn, turns, new_shared,
}

module _ {ℓ} {E S A : Type ℓ} where
  abbrev pub holding : Place E S A → Bool
  holding (entered e) = true
  holding (looked e seen) = true
  holding (leaving a) = true
  holding (pausing e) = true
  holding (stopped a) = true
  holding _ = false

  -- What a thread has seen is what is there.
  abbrev Sees : S → Place E S A → Type ℓ
  Sees m (looked e seen) = seen ≡ m
  Sees m pc = Unit {ℓ}

  module _ (body : E → S → S × A) (init : S) where
    -- One thread after the other: the state is the one that the entries of the log leave, each of which
    -- ran by itself on what the one before it left and gave the answer in the log.
    abbrev pub Explains : List (E × A) → S → Type ℓ
    Explains [] m = m ≡ init
    Explains ((e, a) ∷ log) m = (before : S) × Explains log before × (body e before ≡ (m, a))

  module _ (after : A → After E) where
    -- What a thread does after an entry is what an answer in the log says: it returns it, or waits.
    abbrev pub Logged : List (E × A) → Place E S A → Type ℓ
    Logged log (leaving a) = (e : E) × Memᴰ (e, a) log × (after a ≡ returns)
    Logged log (pausing e') = (e : E) × (a : A) × Memᴰ (e, a) log × (after a ≡ waits e')
    Logged log (asleep e') = (e : E) × (a : A) × Memᴰ (e, a) log × (after a ≡ waits e')
    Logged log (stopped a) = (e : E) × Memᴰ (e, a) log × (after a ≡ stops)
    Logged log pc = Unit {ℓ}

module _ {ℓ} {E S A : Type ℓ} (locks : E → Bool) (body : E → S → S × A) (after : A → After E)
    (init : S) (all_lock : (e : E) → locks e ≡ true) where
  record Inv (s : Shared E S A) : Type ℓ where
    owns : (t : ℕ) → holding (s.places t) ≡ true → s.owner ≡ some t
    fresh : (t : ℕ) → Sees s.state (s.places t)
    logged : (t : ℕ) → Logged after s.log (s.places t)
    explained : Explains body init s.log s.state

  Sees-moved :
      (b : Bool) (m : S) (p q : Place E S A)
      → Sees m p
      → (b ≡ false → Sees m q)
      → Sees m (if b then p else q)
  Sees-moved true m p q now other = now
  Sees-moved false m p q now other = other refl

  Logged-moved :
      (b : Bool) (log : List (E × A)) (p q : Place E S A)
      → Logged after log p
      → Logged after log q
      → Logged after log (if b then p else q)
  Logged-moved true log p q now other = now
  Logged-moved false log p q now other = other

  Logged-cons :
      (x : E × A) (log : List (E × A)) (pc : Place E S A)
      → Logged after log pc
      → Logged after (x ∷ log) pc
  Logged-cons x log (leaving a) (e, m, f) = (e, Memᴰ.tail m, f)
  Logged-cons x log (pausing e') (e, a, m, f) = (e, a, Memᴰ.tail m, f)
  Logged-cons x log (asleep e') (e, a, m, f) = (e, a, Memᴰ.tail m, f)
  Logged-cons x log (stopped a) (e, m, f) = (e, Memᴰ.tail m, f)
  Logged-cons x log idle h = tt
  Logged-cons x log (locking e) h = tt
  Logged-cons x log (entered e) h = tt
  Logged-cons x log (looked e seen) h = tt

  outside-Sees : (m : S) (pc : Place E S A) → holding pc ≡ false → Sees m pc
  outside-Sees m (looked e seen) h = cc
  outside-Sees m idle h = tt
  outside-Sees m (locking e) h = tt
  outside-Sees m (entered e) h = tt
  outside-Sees m (leaving a) h = tt
  outside-Sees m (pausing e) h = tt
  outside-Sees m (asleep e) h = tt
  outside-Sees m (stopped a) h = tt

  alone :
      (t u : ℕ) (s : Shared E S A)
      → Inv s
      → holding (s.places t) ≡ true
      → (t == u) ≡ false
      → holding (s.places u) ≡ false
  alone t u s v ht other = elim (Bool-cases (holding (s.places u))) [
    | inl hu ↦ ground (arith, v.owns t ht, v.owns u hu)
    | inr free ↦ free
  ]

  -- What a thread that leaves the section, or moves in it, keeps of the others.
  acquire-Inv :
      (t : ℕ) (e : E) (s : Shared E S A) (o : Option ℕ)
      → s.owner ≡ o
      → Inv s
      → Inv (acquire s t e o)
  acquire-Inv t e s none here v = record {
    owns = λ u. ground (arith, v.owns u);
    fresh = λ u. Sees-moved (t == u) _ _ _ tt (λ _. v.fresh u);
    logged = λ u. Logged-moved (t == u) _ _ _ tt (v.logged u);
    explained = v.explained;
  }
  acquire-Inv t e s (some other) here v = v

  place_after-Logged :
      (e : E) (a : A) (log : List (E × A)) (next : After E)
      → after a ≡ next
      → Logged {S = S} after ((e, a) ∷ log) (place_after a next)
  place_after-Logged e a log returns f = (e, Memᴰ.head refl, f)
  place_after-Logged e a log (waits e') f = (e, a, Memᴰ.head refl, f)
  place_after-Logged e a log stops f = (e, Memᴰ.head refl, f)

  place_after-Sees : (m : S) (a : A) (next : After E) → Sees m (place_after a next)
  place_after-Sees m a returns = tt
  place_after-Sees m a (waits e) = tt
  place_after-Sees m a stops = tt

  turn_at-Inv :
      (t : ℕ) (next : E) (s : Shared E S A) (pc : Place E S A)
      → s.places t ≡ pc
      → Inv s
      → Inv (turn_at locks body after s t next pc)
  unfolding turn_at
  turn_at-Inv t next s idle here v = rw (all_lock next) record {
    owns = λ u. ground (arith, v.owns u);
    fresh = λ u. Sees-moved (t == u) _ _ _ tt (λ _. v.fresh u);
    logged = λ u. Logged-moved (t == u) _ _ _ tt (v.logged u);
    explained = v.explained;
  }
  turn_at-Inv t next s (locking e) here v = acquire-Inv t e s s.owner refl v
  turn_at-Inv t next s (entered e) here v = record {
    owns = λ u. ground (arith, v.owns u, v.owns t);
    fresh = λ u. Sees-moved (t == u) _ _ _ refl (λ _. v.fresh u);
    logged = λ u. Logged-moved (t == u) _ _ _ tt (v.logged u);
    explained = v.explained;
  }
  turn_at-Inv t next s (looked e seen) here v =
      let saw : seen ≡ s.state = rw here at (v.fresh t) in
      let a = (body e seen).1 in
      record {
        owns = λ u. ground (arith, v.owns u, v.owns t);
        fresh = λ u.
            Sees-moved (t == u) _ _ _ (place_after-Sees _ a (after a))
              (λ other. outside-Sees _ (s.places u) (alone t u s v (ap holding here) other));
        logged = λ u.
            Logged-moved (t == u) _ _ _ (place_after-Logged e a s.log (after a) refl)
              (Logged-cons _ s.log (s.places u) (v.logged u));
        explained = (s.state, v.explained, ap (body e) (sym saw));
      }
  turn_at-Inv t next s (leaving a) here v = record {
    owns = λ u. ground (arith, v.owns u, v.owns t);
    fresh = λ u. Sees-moved (t == u) _ _ _ tt (λ _. v.fresh u);
    logged = λ u. Logged-moved (t == u) _ _ _ tt (v.logged u);
    explained = v.explained;
  }
  turn_at-Inv t next s (pausing e) here v = record {
    owns = λ u. ground (arith, v.owns u, v.owns t);
    fresh = λ u. Sees-moved (t == u) _ _ _ tt (λ _. v.fresh u);
    logged = λ u. Logged-moved (t == u) _ _ _ (rw here at (v.logged t)) (v.logged u);
    explained = v.explained;
  }
  turn_at-Inv t next s (asleep e) here v = record {
    owns = λ u. ground (arith, v.owns u);
    fresh = λ u. Sees-moved (t == u) _ _ _ tt (λ _. v.fresh u);
    logged = λ u. Logged-moved (t == u) _ _ _ tt (v.logged u);
    explained = v.explained;
  }
  turn_at-Inv t next s (stopped a) here v = v

  turns-Inv :
      (schedule : List (ℕ × E)) (s : Shared E S A) → Inv s → Inv (turns locks body after schedule s)
  unfolding turns turn
  turns-Inv [] s v = v
  turns-Inv ((t, next) ∷ later) s v =
      turns-Inv later (turn_at locks body after s t next (s.places t))
        (turn_at-Inv t next s (s.places t) refl v)

  new_shared-Inv : Inv (new_shared init)
  unfolding new_shared
  new_shared-Inv = record { owns = λ t e. cc; fresh = λ t. tt; logged = λ t. tt; explained = refl }

  -- Threads that work under one mutex, in any order of their steps: the entries took effect one after the
  -- other, in the order of the log, from the first state to the present one; what a thread is about to do
  -- is what an answer in the log says; and two threads are not inside at a time.
  pub turns_linearize :
      (schedule : List (ℕ × E))
      → let s = turns locks body after schedule (new_shared init) in
        Explains body init s.log s.state
        × ((t : ℕ) → Logged after s.log (s.places t))
        × ((t u : ℕ) → holding (s.places t) ≡ true → holding (s.places u) ≡ true → t ≡ u)
  turns_linearize schedule =
      let v = turns-Inv schedule (new_shared init) new_shared-Inv in
      (v.explained, v.logged, λ t u ht hu. ground (arith, v.owns t ht, v.owns u hu))
