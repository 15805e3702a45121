-- ===== src/LockedMap/Pointers.antt =====
-- include/locked-map.hpp, `clear` and `~LockedMap` for a `DataType` that is a pointer: every value is
-- deleted, so each object has to be in the map once.
use donkeycar_gt.Prelude.{
  ℕ, ◌+◌, ◌≤◌, ◌≡◌, refl, ◌≢◌, ◌↔◌, Bool-cases, inl, inr, Bool, true, false, List, [], ◌∷◌, Option,
  none, some, arith, ◌==◌, if◌then◌else◌,
}
use donkeycar_gt.Run.{Run-cases, Fault, Run, ok, fault, dangling, require, ◌>>=◌, ◌>>◌}
use donkeycar_gt.Mutex.{PthreadMutex}
use donkeycar_gt.Lock.{ctor, dtor}
use donkeycar_gt.Lock.Release.{ctor_ready, ctor-held, dtor-releases}
use donkeycar_gt.LockedMap.{LockedMap}
use donkeycar_gt.LockedMap.Locking.{Free, SameDepths, SameDepths-cancel}

-- The addresses of the objects on the heap that are not deleted.
abbrev pub Heap : Type 0
Heap = ℕ → Bool

-- `delete`: nothing at the null pointer, undefined at an object that is gone.
delete : Option ℕ → Heap → Run Heap
delete none h = ok h
delete (some a) h = require (h a) dangling >> ok (λ b. if b == a then false else h b)

module _ {ℓ} {K : Type ℓ} where
  -- `for (; mit != emit; ++mit) delete mit->second;`
  delete_all : List (K × Option ℕ) → Heap → Run Heap
  unfolding delete
  delete_all [] h = ok h
  delete_all ((k, v) ∷ m) h = do h' ← delete v h; delete_all m h'

  -- How many entries point to an object.
  abbrev pub points_to : ℕ → List (K × Option ℕ) → ℕ
  points_to a [] = 0
  points_to a ((k, none) ∷ m) = points_to a m
  points_to a ((k, some b) ∷ m) = if a == b then points_to a m + 1 else points_to a m

  -- The map is the only owner of what it points to.
  abbrev pub Owns : List (K × Option ℕ) → Heap → Type 0
  Owns m h = (a : ℕ) → (points_to a m ≤ 1) × (points_to a m ≢ 0 → h a ≡ true)

  delete_all-owned :
      (m : List (K × Option ℕ)) (h : Heap)
      → Owns m h
      → (h' : Heap) × (delete_all m h ≡ ok h')
        × ((b : ℕ) → h' b ≡ (if points_to b m == 0 then h b else false))
  unfolding delete_all
  delete_all-owned [] h owns = (h, refl, λ b. refl)
  delete_all-owned ((k, none) ∷ m) h owns = delete_all-owned m h owns
  delete_all-owned ((k, some a) ∷ m) h owns =
      let live = (owns a).1 (ground arith) in
      let (h', done, gone) =
        delete_all-owned m (λ b. if b == a then false else h b)
          (λ b. ground (arith, owns b, owns a)) in
      (h', rw live done, λ b. ground (arith, gone b, owns a))

  delete_all-Owns : (m : List (K × Option ℕ)) (h h' : Heap) → delete_all m h ≡ ok h' → Owns m h
  unfolding delete_all
  delete_all-Owns [] h h' e = λ b. (omega arith, λ used. absurd (used refl))
  delete_all-Owns ((k, none) ∷ m) h h' e = delete_all-Owns m h h' e
  delete_all-Owns ((k, some a) ∷ m) h h' e = elim (Bool-cases (h a)) [
    | inl live ↦
        let owns = delete_all-Owns m (λ b. if b == a then false else h b) h' (rw live at e) in
        λ b. ground (arith, owns b, owns a)
    | inr dead ↦ absurd (ground (arith, rw dead at e))
  ]

  delete_all-fault :
      (m : List (K × Option ℕ)) (h : Heap) (e : Fault) → delete_all m h ≡ fault e → e ≡ dangling
  unfolding delete_all
  delete_all-fault [] h e failed = cc
  delete_all-fault ((k, none) ∷ m) h e failed = delete_all-fault m h e failed
  delete_all-fault ((k, some a) ∷ m) h e failed = elim (Bool-cases (h a)) [
    | inl live ↦ delete_all-fault m (λ b. if b == a then false else h b) e (rw live at failed)
    | inr dead ↦ ground (arith, rw dead at failed)
  ]

module _ (p : PthreadMutex) (debug : Bool) (t : ℕ) where
  open p use {World}

  module _ {ℓ} {K : Type ℓ} where
    -- `clear` where `std::is_pointer<DataType>` holds; the destructor calls it.
    pub clear_pointers :
        LockedMap K (Option ℕ) → Heap → World → Run (LockedMap K (Option ℕ) × Heap × World)
    unfolding delete_all
    clear_pointers m h w = do
      (l, w1) ← ctor p debug t m.m_mutex w
      h' ← delete_all m.m_data h
      w2 ← dtor p debug t l w1
      ok (record m { m_data = [] }, h', w2)

    -- If the map is the only owner of its objects and no other thread uses it, `clear` deletes exactly
    -- the objects that it points to, empties it, and leaves the mutexes as they were.
    pub clear-owned :
        (m : LockedMap K (Option ℕ)) (h : Heap) (w : World)
        → Owns m.m_data h
        → Free p debug t m.m_mutex w
        → (h' : Heap) × (w' : World) × (clear_pointers m h w
            ≡ ok (record m { m_data = [] }, h', w'))
          × ((b : ℕ) → h' b ≡ (if points_to b m.m_data == 0 then h b else false))
          × SameDepths p debug t w w'
    unfolding clear_pointers
    clear-owned m h w owns free =
        let (h', done, gone) = delete_all-owned m.m_data h owns in
        let (l, w1, made) = ctor_ready p debug t m.m_mutex w free in
        let (sound, taken, others) = ctor-held p debug t m.m_mutex w l w1 made in
        let (w2, over, released) =
          dtor-releases p debug t l w1 sound (λ k. omega (arith, taken k)) in
        (
          h',
          w2,
          rw (made, done, over),
          gone,
          SameDepths-cancel p debug t l w w1 w2 taken others released,
        )

    -- While no other thread uses the map, `clear` deletes an object that is gone exactly if the map
    -- does not own what it points to: if an object is deleted already or two entries point to one.
    pub clear-dangling :
        (m : LockedMap K (Option ℕ)) (h : Heap) (w : World)
        → Free p debug t m.m_mutex w
        → (clear_pointers m h w ≡ fault dangling) ↔ ¬ Owns m.m_data h
    unfolding clear_pointers
    clear-dangling m h w free =
        let (l, w1, made) = ctor_ready p debug t m.m_mutex w free in
        (
          (λ failed owns. let (h', w', done, _, _) = clear-owned m h w owns free in absurd (cc)),
          λ alien. elim (Run-cases (delete_all m.m_data h)) [
            | inl (h', done) ↦ absurd (alien (delete_all-Owns m.m_data h h' done))
            | inr (e, failed) ↦ rw (made, failed, delete_all-fault m.m_data h e failed) refl
          ],
        )
