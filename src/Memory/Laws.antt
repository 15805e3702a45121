-- ===== src/Memory/Laws.antt =====
-- include/memory.hpp: what `get` answers, and that `Memory` is a store for the vehicle.
use Prim.Native.String.{String}
use text.Mathlib.Text.{◌==◌}
use donkeycar_gt.Prelude.{ℕ, ◌≡◌, refl, Bool, List, Option, none, some, arith, if◌then◌else◌}
use donkeycar_gt.Run.{Run, ok, out_of_range, the, ◌>>=◌}
use donkeycar_gt.Mutex.{PthreadMutex}
use mathlib.Core.Path.{ap, ◌∙◌}
use donkeycar_gt.Store.{Store}
use donkeycar_gt.LockedMap.{insert, at}
use donkeycar_gt.LockedMap.Table.{find, assign, find-assign}
use donkeycar_gt.LockedMap.Locking.{Free, SameDepths, locked_lem, SameDepths-Free}
use donkeycar_gt.Memory.{Memory, Datum, get, put, or_null, string_key}

-- A key that is missing reads as a null pointer, as does a null pointer that was put there.
abbrev pub flat {ℓ} : {D : Type ℓ} → Option (Datum D) → Datum D
flat none = none
flat (some d) = d

-- What the memory answers at each key.
abbrev pub answer {ℓ} : {D : Type ℓ} → Memory D → String → Datum D
answer m k = flat (find k m.m_data)

or_null-the {ℓ} : {D : Type ℓ} (o : Option (Datum D)) → or_null (the o out_of_range) ≡ ok (flat o)
or_null-the none = refl
or_null-the (some d) = refl

pub answer-assign {ℓ} :
    {D : Type ℓ} (k j : String) (d : Datum D) (m : List (String × Datum D))
    → flat (find j (assign k d m)) ≡ (if k == j then d else flat (find j m))
answer-assign k j d m = ground (arith, find-assign k j d m)

module _ (p : PthreadMutex) (debug : Bool) (t : ℕ) where
  open p use {World}

  module _ {ℓ} {D : Type ℓ} where
    get_lem :
        (k : String) (m : Memory D) (w : World)
        → Free p debug t m.m_mutex w
        → (w' : World) × (get p debug t k m w ≡ ok (answer m k, w')) × SameDepths p debug t w w'
    unfolding get at
    get_lem k m w free =
        let (w', looked, same) =
          locked_lem p debug t m.m_mutex (the (find k m.m_data) out_of_range) w free in
        (w', rw (looked, or_null-the (find k m.m_data)), same)

    put_lem :
        (k : String) (d : Datum D) (m : Memory D) (w : World)
        → Free p debug t m.m_mutex w
        → (w' : World) × (put p debug t k d m w
            ≡ ok (record m { m_data = assign k d m.m_data }, w'))
          × SameDepths p debug t w w'
    unfolding put insert
    put_lem k d m w free =
        locked_lem p debug t m.m_mutex (record m { m_data = assign k d m.m_data }) w free

    -- While no other thread uses the memory, `put` and then `get` return, and throw nothing: `get` gives
    -- what was put at its key, and at another key what the memory answered before, which is the null
    -- pointer if there is nothing. Every mutex is left as it was.
    pub get-put :
        (k j : String) (d : Datum D) (m : Memory D) (w : World)
        → Free p debug t m.m_mutex w
        → (m' : Memory D) × (w1 : World) × (w2 : World) × (put p debug t k d m w ≡ ok (m', w1))
          × (get p debug t j m' w1 ≡ ok ((if k == j then d else answer m j), w2))
          × SameDepths p debug t w w2
    get-put k j d m w free =
        let m' = record m { m_data = assign k d m.m_data } in
        let (w1, stored, same1) = put_lem k d m w free in
        let (w2, looked, same2) =
          get_lem j m' w1 (SameDepths-Free p debug t m.m_mutex w w1 same1 free) in
        (
          m',
          w1,
          w2,
          stored,
          looked ∙ ap (λ a. ok (a, w2)) (answer-assign k j d m.m_data),
          λ t' n. same2 t' n ∙ same1 t' n,
        )

  module _ {D : Type 0} where
    pub store_get : String → Memory D × World → Run (Datum D × (Memory D × World))
    store_get k (m, w) = do (d, w') ← get p debug t k m w; ok (d, (m, w'))

    pub store_put : String → Datum D → Memory D × World → Run (Memory D × World)
    store_put k d (m, w) = put p debug t k d m w

    abbrev pub IsReady : Memory D × World → Type 0
    IsReady (m, w) = Free p debug t m.m_mutex w

    abbrev pub view : Memory D × World → String → Datum D
    view (m, w) = answer m

    pub store_get_lem :
        (k : String) (s : Memory D × World)
        → IsReady s
        → (s' : Memory D × World) × (store_get k s ≡ ok (view s k, s'))
          × IsReady s'
          × ((j : String) → view s' j ≡ view s j)
    unfolding store_get
    store_get_lem k (m, w) free =
        let (w', looked, same) = get_lem k m w free in
        ((m, w'), rw looked, SameDepths-Free p debug t m.m_mutex w w' same free, λ j. refl)

    pub store_put_lem :
        (k : String) (d : Datum D) (s : Memory D × World)
        → IsReady s
        → (s' : Memory D × World) × (store_put k d s ≡ ok s')
          × IsReady s'
          × ((j : String) → view s' j ≡ (if k == j then d else view s j))
    unfolding store_put
    store_put_lem k d (m, w) free =
        let (w', stored, same) = put_lem k d m w free in
        (
          (record m { m_data = assign k d m.m_data }, w'),
          stored,
          SameDepths-Free p debug t m.m_mutex w w' same free,
          λ j. answer-assign k j d m.m_data,
        )

  -- The operations of one thread on one memory are the store that the vehicle asks for.
  unfoldable pub memory_store : (D : Type 0) → Store D
  memory_store D = record {
    State = Memory D × World;
    Ready = IsReady;
    view = view;
    get = store_get;
    put = store_put;
    get_lem = store_get_lem;
    put_lem = store_put_lem;
  }
