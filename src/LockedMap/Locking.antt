-- ===== src/LockedMap/Locking.antt =====
-- include/locked-map.hpp: an operation leaves every mutex as it found it, and what it returns is the
-- value of its body; `at` after `insert`.
use mathlib.Core.Logic.{◌≢◌}
use mathlib.Core.Path.{ap, ◌∙◌}
use donkeycar_gt.Prelude.{ℕ, ◌+◌, ◌≡◌, ◌==◌, if◌then◌else◌, Bool, List, arith, ℕ_discrete, length}
use donkeycar_gt.Run.{ok, out_of_range, the}
use donkeycar_gt.Mutex.{PthreadMutex}
use donkeycar_gt.Lock.{Lock}
use donkeycar_gt.Lock.Held.{held_by}
use donkeycar_gt.Lock.Release.{Released, ctor_ready, ctor-held, dtor-releases}
use donkeycar_gt.LockedMap.Table.{
  Key, find, assign, find-assign, length-assign, IsMap, assign-IsMap, entries_of,
}
use donkeycar_gt.LockedMap.{LockedMap, locked, insert, at}

module _ (p : PthreadMutex) (debug : Bool) (t : ℕ) where
  open p use {World, depth}

  -- No other thread holds the mutex.
  abbrev pub Free : ℕ → World → Type 0
  Free m w = (t' : ℕ) → t' ≢ t → depth t' m w ≡ 0

  -- Two worlds in which every thread holds every mutex as often.
  abbrev pub SameDepths : World → World → Type 0
  SameDepths w w' = (t' m : ℕ) → depth t' m w' ≡ depth t' m w

  pub SameDepths-cancel :
      (l : Lock) (w w1 w2 : World)
      → ((m : ℕ) → depth t m w1 ≡ depth t m w + held_by m l)
      → ((t' m : ℕ) → t' ≢ t → depth t' m w1 ≡ depth t' m w)
      → Released p debug t l w1 w2
      → SameDepths w w2
  SameDepths-cancel l w w1 w2 taken others released t' m = elim (ℕ_discrete t' t) [
    | yes e ↦ rw e (omega (arith, taken m, released.0 m))
    | no ne ↦ released.1 t' m ne ∙ others t' m ne
  ]

  -- An operation on a map that no other thread is using returns the value of its body, and leaves
  -- every mutex as it found it.
  pub locked_lem {ℓ} :
      {A : Type ℓ} (m : ℕ) (a : A) (w : World)
      → Free m w
      → (w' : World) × (locked p debug t m a w ≡ ok (a, w')) × SameDepths w w'
  unfolding locked
  locked_lem m a w free =
      let (l, w1, made) = ctor_ready p debug t m w free in
      let (sound, taken, others) = ctor-held p debug t m w l w1 made in
      let (w2, gone, released) = dtor-releases p debug t l w1 sound (λ k. omega (arith, taken k)) in
      (w2, rw (made, gone), SameDepths-cancel l w w1 w2 taken others released)

  pub SameDepths-Free : (m : ℕ) (w w' : World) → SameDepths w w' → Free m w → Free m w'
  SameDepths-Free m w w' s free t' ne = s t' m ∙ free t' ne

the-find {ℓ κ} :
    {K : Type ℓ} {V : Type κ} ⦃key : Key K⦄ (k j : K) (v : V) (m : List (K × V))
    → the (find j (assign k v m)) out_of_range
      ≡ (if key.same k j then ok v else the (find j m) out_of_range)
the-find ⦃key⦄ k j v m = ground (arith, find-assign k j v m)

module _ (p : PthreadMutex) (debug : Bool) (t : ℕ) where
  open p use {World}

  module _ {ℓ κ} {K : Type ℓ} {V : Type κ} ⦃key : Key K⦄ where
    -- While no other thread uses the map, `insert` returns; `at` then gives the new value at its key,
    -- and at every other key what it gave before, where a key that is missing throws `out_of_range`.
    -- The keys stay distinct, the size grows by one exactly if the key was missing, and the mutexes
    -- are as before on every path.
    pub at-insert :
        (k j : K) (v : V) (m : LockedMap K V) (w : World)
        → IsMap m.m_data
        → Free p debug t m.m_mutex w
        → (m' : LockedMap K V) × (w1 : World) × (w2 : World) × (insert p debug t k v m w
            ≡ ok (m', w1))
          × (at p debug t j m' w1
              ≡ ok ((if key.same k j then ok v else the (find j m.m_data) out_of_range), w2))
          × IsMap m'.m_data
          × (length m'.m_data
              ≡ (if entries_of k m.m_data == 0 then length m.m_data + 1 else length m.m_data))
          × SameDepths p debug t w w2
    unfolding insert at
    at-insert k j v m w distinct free =
        let m' = record m { m_data = assign k v m.m_data } in
        let (w1, inserted, same1) = locked_lem p debug t m.m_mutex m' w free in
        let (w2, looked, same2) =
          locked_lem p debug t m.m_mutex (the (find j m'.m_data) out_of_range) w1
            (SameDepths-Free p debug t m.m_mutex w w1 same1 free) in
        (
          m',
          w1,
          w2,
          inserted,
          looked ∙ ap (λ r. ok (r, w2)) (the-find k j v m.m_data),
          assign-IsMap k v m.m_data distinct,
          length-assign k v m.m_data,
          λ t' n. same2 t' n ∙ same1 t' n,
        )
