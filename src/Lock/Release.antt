-- ===== src/Lock/Release.antt =====
-- include/lock.hpp: what the constructor takes, and that the destructor gives all of it back.
use donkeycar_gt.Prelude.{
  ℕ, zero, suc, ◌+◌, ◌-◌, ◌≤◌, ◌≡◌, refl, ◌≢◌, Bool, Option, none, some, lt→ltb, arith,
  Option-cases, inl, inr,
}
use donkeycar_gt.Run.{ok}
use donkeycar_gt.Mutex
use donkeycar_gt.Mutex.{PthreadMutex}
use donkeycar_gt.Lock.{Lock, ctor, unlock, release, dtor}
use donkeycar_gt.Lock.Held.{held_by, IsSound}

module _ (p : PthreadMutex) (debug : Bool) (t : ℕ) where
  open p use {World, depth}

  abbrev lock : Option ℕ → ℕ → Lock
  lock mutex count = record { m_mutex = mutex; m_lock_cnt = count }

  unlock-lem :
      (k c : ℕ) (w : World)
      → unlock p debug t (lock (some k) (suc c)) w ≡ ok (lock (some k) c, p.unlock t k w)
  unfolding unlock
  unlock-lem k c w = ground arith

  abbrev pub Released : Lock → World → World → Type 0
  Released l w w' =
      ((m : ℕ) → depth t m w' + held_by m l ≡ depth t m w)
      × ((t' m : ℕ) → t' ≢ t → depth t' m w' ≡ depth t' m w)

  -- The destructor of a sound object releases what the object holds, and nothing else.
  release-releases :
      (n : ℕ) (mutex : Option ℕ) (c : ℕ) (w : World)
      → c ≤ n
      → IsSound (lock mutex c)
      → ((m : ℕ) → held_by m (lock mutex c) ≤ depth t m w)
      → (w' : World) × (release p debug t n (lock mutex c) w ≡ ok w') × Released (lock mutex c) w w'
  unfolding release
  release-releases zero none c w few sound enough = (w, refl, (λ m. omega arith, λ t' m ne. refl))
  release-releases zero (some k) c w few sound enough =
      (w, refl, (λ m. ground arith, λ t' m ne. refl))
  release-releases (suc n) mutex zero w few sound enough =
      (w, refl, (λ m. ground arith, λ t' m ne. refl))
  release-releases (suc n) none (suc c) w few sound enough = absurd (omega (arith, sound refl))
  release-releases (suc n) (some k) (suc c) w few sound enough =
      let first = p.depth-unlock t k (depth t k w - 1) w (ground (arith, enough k)) in
      let (w', e, (released, others)) =
        release-releases n (some k) c (p.unlock t k w) (omega arith) (λ none_set. cc)
          (λ m. ground (arith, enough m, first t m)) in
      (
        w',
        rw (lt→ltb 0 (suc c) (omega arith), unlock-lem k c w) e,
        (
          λ m. ground (arith, released m, first t m, enough m),
          λ t' m ne. ground (arith, others t' m ne, first t' m),
        ),
      )

  pub dtor-releases :
      (l : Lock) (w : World)
      → IsSound l
      → ((m : ℕ) → held_by m l ≤ depth t m w)
      → (w' : World) × (dtor p debug t l w ≡ ok w') × Released l w w'
  unfolding dtor
  dtor-releases l w sound enough =
      release-releases l.m_lock_cnt l.m_mutex l.m_lock_cnt w (omega arith) sound enough

  pub ctor-held :
      (k : ℕ) (w : World) (l : Lock) (w' : World)
      → ctor p debug t k w ≡ ok (l, w')
      → IsSound l
        × ((m : ℕ) → depth t m w' ≡ depth t m w + held_by m l)
        × ((t' m : ℕ) → t' ≢ t → depth t' m w' ≡ depth t' m w)
  unfolding ctor Mutex.lock
  ctor-held k w l w' e = elim (Option-cases (p.lock t k w)) [
    | inl blocked ↦ absurd (ground arith)
    | inr (v, locked) ↦
        let law = p.depth-lock t k w v locked in
        (
          λ none_set. ground arith,
          λ m. ground (arith, law t m),
          λ t' m ne. ground (arith, law t' m),
        )
  ]

  -- At a mutex that no other thread holds the constructor returns.
  pub ctor_ready :
      (k : ℕ) (w : World)
      → ((t' : ℕ) → t' ≢ t → depth t' k w ≡ 0)
      → (l : Lock) × (w' : World) × (ctor p debug t k w ≡ ok (l, w'))
  unfolding ctor Mutex.lock
  ctor_ready k w free = elim (Option-cases (p.lock t k w)) [
    | inl blocked ↦ absurd (p.lock_ready t k w free blocked)
    | inr (v, locked) ↦ (lock (some k) 1, v, rw locked)
  ]
